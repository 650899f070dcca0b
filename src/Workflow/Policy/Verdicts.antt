-- ===== src/Workflow/Policy/Verdicts.antt =====
-- What a gate decides (EvaluateGate of internal/workflow/policy.go).
use matea.Base.{ℕ, Bool, true, false, not, ◌&&◌, ◌||◌, ◌≡◌, ◌==◌, Option, none, some, arith}
use matea.Store.Types.{Stage, Role, WorkflowContext, stage_eq, role_eq}
use matea.Workflow.Policy.{
  GateLevel, GateId, GateValue, Verdict, pass, warned, lookup, WorkflowPolicy, denied, passed,
  get_gate_level, evaluate_gate, preset_free, preset_standard, preset_strict,
}

-- The situation that a gate looks for.
abbrev pub concerns : GateId → WorkflowContext → ℕ → Bool → Bool
concerns GateId.coder_requires_analyzed ctx agent_id is_draft = stage_eq ctx.stage Stage.idle
concerns GateId.reanalyze_while_dev ctx agent_id is_draft = stage_eq ctx.stage Stage.developing
concerns GateId.rerun_same_stage ctx agent_id is_draft = true
concerns GateId.coder_switch_agent ctx agent_id is_draft =
    not (ctx.active_agent_id == 0) && not (ctx.active_agent_id == agent_id)
concerns GateId.review_warn_if_draft ctx agent_id is_draft = is_draft
concerns GateId.review_not_same_coder ctx agent_id is_draft =
    not (agent_id == 0)
    && ctx.active_agent_id == agent_id
    && (stage_eq ctx.stage Stage.developing || role_eq ctx.active_role Role.coder)
concerns _ ctx agent_id is_draft = false

-- The value that a policy has for a gate, if there is a policy and it has one.
abbrev pub value_of : Option WorkflowPolicy → GateId → Option GateValue
value_of none g = none
value_of (some p) g = lookup g p.gates

-- Whether a task may go on, and what is said of it.
abbrev pub outcome : Option GateValue → Bool → Bool × Verdict
outcome (some GateValue.hard) true = (false, denied)
outcome (some GateValue.soft) true = (true, warned)
outcome _ _ = (true, pass)

abbrev pub warns_of_draft : GateId → Bool
warns_of_draft GateId.review_warn_if_draft = true
warns_of_draft _ = false

module _ (g : GateId) (ctx : WorkflowContext) (agent_id : ℕ) (is_draft : Bool) where
  -- In the situation that it looks for, a gate whose value in the policy is hard stops the task and
  -- denies it, and one whose value is soft warns and lets it go on. In every other situation, and with
  -- any other value, no value or no policy, it lets the task go on without a word.
  pub evaluate_gate-eq-outcome :
      (policy : Option WorkflowPolicy)
      → evaluate_gate policy g ctx agent_id is_draft ≡ record {
        allowed = (outcome (value_of policy g) (concerns g ctx agent_id is_draft)).0;
        level = (outcome (value_of policy g) (concerns g ctx agent_id is_draft)).1;
        code = g;
      }
  unfolding evaluate_gate
  evaluate_gate-eq-outcome policy = ground arith

  -- A gate that does not let a task pass is configured hard and says so. No soft gate stops a task.
  pub evaluate_gate-denies :
      (policy : Option WorkflowPolicy)
      → (evaluate_gate policy g ctx agent_id is_draft).allowed ≡ false
      → ((evaluate_gate policy g ctx agent_id is_draft).level ≡ denied)
        × (get_gate_level policy g ≡ GateLevel.hard)
        × (concerns g ctx agent_id is_draft ≡ true)
  unfolding evaluate_gate
  evaluate_gate-denies policy h = (ground arith, ground arith, ground arith)

  -- The free preset never even warns, the standard one never denies, and the strict one denies in
  -- every situation that a gate looks for but a draft PR, which it warns of.
  pub presets_deny :
      (evaluate_gate (some preset_free) g ctx agent_id is_draft ≡ passed g)
      × ((evaluate_gate (some preset_standard) g ctx agent_id is_draft).allowed ≡ true)
      × ((evaluate_gate (some preset_strict) g ctx agent_id is_draft).allowed
          ≡ not (concerns g ctx agent_id is_draft && not (warns_of_draft g)))
  unfolding evaluate_gate
  presets_deny = (ground arith, ground arith, ground arith)
