-- ===== src/Workflow/Policy.antt =====
-- internal/workflow/policy.go: the configurable (L2) gates. A gate id or a configured value is one of
-- the constants of the source or `other` with its text. The texts of messages and hints are named by
-- the gate and by whether it warns or denies.
pub mod Overrides
pub mod Verdicts
use mathlib.Core.List.{reverse}
use matea.Base.{
  all_space, ℕ, String, Text, codes, Bool, true, false, not, ◌&&◌, ◌||◌, Option, none, some, List,
  [], ◌∷◌, ◌==◌, leb, str_eq, if◌then◌else◌,
}
use matea.Store.Types.{Stage, Role, WorkflowContext, stage_eq, role_eq}

pub data GateLevel : Type 0 where
  off soft hard : GateLevel

pub data GateId : Type 0 where
  coder_requires_analyzed allow_skip_analyze reanalyze_while_dev rerun_same_stage : GateId
  review_warn_if_draft coder_switch_agent stage_transition_unassign : GateId
  review_not_same_coder : GateId
  other : String → GateId

-- a value of the map Gates
pub data GateValue : Type 0 where
  off soft hard yes_skip no_skip : GateValue
  other : String → GateValue

abbrev pub gate_eq : GateId → GateId → Bool
gate_eq coder_requires_analyzed coder_requires_analyzed = true
gate_eq allow_skip_analyze allow_skip_analyze = true
gate_eq reanalyze_while_dev reanalyze_while_dev = true
gate_eq rerun_same_stage rerun_same_stage = true
gate_eq review_warn_if_draft review_warn_if_draft = true
gate_eq coder_switch_agent coder_switch_agent = true
gate_eq stage_transition_unassign stage_transition_unassign = true
gate_eq review_not_same_coder review_not_same_coder = true
gate_eq (GateId.other s) (GateId.other t) = str_eq s t
gate_eq _ _ = false

abbrev pub Gates : Type 0
Gates = List (GateId × GateValue)

pub record NotifyPolicy : Type 0 where
  pub on_analyze_done : Bool
  pub on_coder_pr_opened : Bool
  pub on_gate_soft : Bool
  pub on_gate_hard : Bool

pub data Preset : Type 0 where
  free standard strict : Preset
  other : String → Preset

pub record WorkflowPolicy : Type 0 where
  pub preset : Preset
  pub gates : Gates
  pub notify : NotifyPolicy

abbrev pub preset_free : WorkflowPolicy
preset_free = record {
  preset = Preset.free;
  gates =
      (coder_requires_analyzed, GateValue.off)
      ∷ (allow_skip_analyze, yes_skip)
      ∷ (reanalyze_while_dev, GateValue.off)
      ∷ (rerun_same_stage, GateValue.off)
      ∷ (review_warn_if_draft, GateValue.off)
      ∷ (coder_switch_agent, GateValue.off)
      ∷ (stage_transition_unassign, GateValue.off)
      ∷ (review_not_same_coder, GateValue.off)
      ∷ [];
  notify = record {
    on_analyze_done = true;
    on_coder_pr_opened = true;
    on_gate_soft = false;
    on_gate_hard = true;
  };
}

abbrev pub preset_standard : WorkflowPolicy
preset_standard = record {
  preset = Preset.standard;
  gates =
      (coder_requires_analyzed, GateValue.off)
      ∷ (allow_skip_analyze, yes_skip)
      ∷ (reanalyze_while_dev, GateValue.soft)
      ∷ (rerun_same_stage, GateValue.soft)
      ∷ (review_warn_if_draft, GateValue.off)
      ∷ (coder_switch_agent, GateValue.soft)
      ∷ (stage_transition_unassign, GateValue.soft)
      ∷ (review_not_same_coder, GateValue.soft)
      ∷ [];
  notify = record {
    on_analyze_done = true;
    on_coder_pr_opened = true;
    on_gate_soft = true;
    on_gate_hard = true;
  };
}

abbrev pub preset_strict : WorkflowPolicy
preset_strict = record {
  preset = Preset.strict;
  gates =
      (coder_requires_analyzed, GateValue.hard)
      ∷ (allow_skip_analyze, no_skip)
      ∷ (reanalyze_while_dev, GateValue.hard)
      ∷ (rerun_same_stage, GateValue.hard)
      ∷ (review_warn_if_draft, GateValue.soft)
      ∷ (coder_switch_agent, GateValue.hard)
      ∷ (stage_transition_unassign, GateValue.hard)
      ∷ (review_not_same_coder, GateValue.hard)
      ∷ [];
  notify = record {
    on_analyze_done = true;
    on_coder_pr_opened = true;
    on_gate_soft = true;
    on_gate_hard = true;
  };
}

unfoldable pub get_preset : Preset → WorkflowPolicy
get_preset Preset.free = preset_free
get_preset Preset.strict = preset_strict
get_preset _ = preset_standard

-- strings.TrimSpace(s) == ""
abbrev pub is_blank : String → Bool
is_blank s = all_space (codes s)

abbrev pub blank_id : GateId → Bool
blank_id (GateId.other s) = is_blank s
blank_id _ = false

abbrev pub blank_value : GateValue → Bool
blank_value (GateValue.other s) = is_blank s
blank_value _ = false

abbrev pub lookup : GateId → Gates → Option GateValue
lookup g [] = none
lookup g ((k, v) ∷ gates) = if gate_eq k g then some v else lookup g gates

-- p.Gates[k] = v
abbrev pub set_gate : GateId → GateValue → Gates → Gates
set_gate g w [] = (g, w) ∷ []
set_gate g w ((k, v) ∷ gates) = if gate_eq k g then (k, w) ∷ gates else (k, v) ∷ set_gate g w gates

-- The loop of BuildPolicy over the overrides, in the order in which the map is iterated.
unfoldable pub apply_overrides : Gates → Gates → Gates
apply_overrides [] gates = gates
apply_overrides ((k, v) ∷ overrides) gates =
    apply_overrides overrides (if blank_id k || blank_value v then gates else set_gate k v gates)

unfoldable pub build_policy : Preset → Gates → WorkflowPolicy
unfolding get_preset apply_overrides
build_policy preset overrides = record (get_preset preset) {
  gates = apply_overrides overrides (get_preset preset).gates;
}

abbrev pub level_of : Option GateValue → GateLevel
level_of (some GateValue.soft) = GateLevel.soft
level_of (some GateValue.hard) = GateLevel.hard
level_of _ = GateLevel.off

-- `none` is the nil policy
unfoldable pub get_gate_level : Option WorkflowPolicy → GateId → GateLevel
get_gate_level none g = GateLevel.off
get_gate_level (some p) g = level_of (lookup g p.gates)

pub data Verdict : Type 0 where
  pass warned denied : Verdict

pub record GateEvaluateResult : Type 0 where
  pub allowed : Bool
  pub level : Verdict
  pub code : GateId

abbrev pub passed : GateId → GateEvaluateResult
passed g = record { allowed = true; level = pass; code = g }

abbrev pub flagged : GateLevel → GateId → GateEvaluateResult
flagged GateLevel.hard g = record { allowed = false; level = denied; code = g }
flagged _ g = record { allowed = true; level = warned; code = g }

eval_coder_requires_analyzed : GateLevel → WorkflowContext → GateEvaluateResult
eval_coder_requires_analyzed level ctx =
    if stage_eq ctx.stage Stage.idle
    then flagged level coder_requires_analyzed
    else passed coder_requires_analyzed

eval_reanalyze_while_dev : GateLevel → WorkflowContext → GateEvaluateResult
eval_reanalyze_while_dev level ctx =
    if stage_eq ctx.stage Stage.developing
    then flagged level reanalyze_while_dev
    else passed reanalyze_while_dev

-- The stage of the context is only named in the message.
eval_rerun_same_stage : GateLevel → WorkflowContext → GateEvaluateResult
eval_rerun_same_stage level ctx = flagged level rerun_same_stage

eval_coder_switch_agent : GateLevel → WorkflowContext → ℕ → GateEvaluateResult
eval_coder_switch_agent level ctx agent_id =
    if ctx.active_agent_id == 0 || ctx.active_agent_id == agent_id
    then passed coder_switch_agent
    else flagged level coder_switch_agent

eval_review_warn_if_draft : GateLevel → Bool → GateEvaluateResult
eval_review_warn_if_draft level is_draft =
    if not is_draft then passed review_warn_if_draft else flagged level review_warn_if_draft

eval_review_not_same_coder : GateLevel → WorkflowContext → ℕ → GateEvaluateResult
eval_review_not_same_coder level ctx agent_id =
    if agent_id == 0 || ctx.active_agent_id == 0 || not (ctx.active_agent_id == agent_id)
    then passed review_not_same_coder
    else if not (stage_eq ctx.stage Stage.developing || role_eq ctx.active_role Role.coder)
    then passed review_not_same_coder
    else flagged level review_not_same_coder

eval_at_level : GateLevel → GateId → WorkflowContext → ℕ → Bool → GateEvaluateResult
unfolding eval_coder_requires_analyzed eval_reanalyze_while_dev eval_rerun_same_stage
    eval_coder_switch_agent eval_review_warn_if_draft eval_review_not_same_coder
eval_at_level GateLevel.off g ctx agent_id is_draft = passed g
eval_at_level level coder_requires_analyzed ctx agent_id is_draft =
    eval_coder_requires_analyzed level ctx
eval_at_level level reanalyze_while_dev ctx agent_id is_draft = eval_reanalyze_while_dev level ctx
eval_at_level level rerun_same_stage ctx agent_id is_draft = eval_rerun_same_stage level ctx
eval_at_level level coder_switch_agent ctx agent_id is_draft =
    eval_coder_switch_agent level ctx agent_id
eval_at_level level review_warn_if_draft ctx agent_id is_draft =
    eval_review_warn_if_draft level is_draft
eval_at_level level review_not_same_coder ctx agent_id is_draft =
    eval_review_not_same_coder level ctx agent_id
eval_at_level level g ctx agent_id is_draft = passed g

unfoldable pub evaluate_gate :
    Option WorkflowPolicy → GateId → WorkflowContext → ℕ → Bool → GateEvaluateResult
unfolding get_gate_level eval_at_level
evaluate_gate policy g ctx agent_id is_draft =
    eval_at_level (get_gate_level policy g) g ctx agent_id is_draft
