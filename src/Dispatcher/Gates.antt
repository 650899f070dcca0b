-- ===== src/Dispatcher/Gates.antt =====
-- internal/workflow/gate_l1.go and internal/dispatcher/gates.go: the gates of an event.
use matea.Base.{
  is_empty, ℕ, String, codes, Bool, true, false, not, ◌||◌, Option, none, some, List, [], ◌∷◌, ◌++◌,
  ◌==◌, str_eq, contains, if◌then◌else◌,
}
use matea.Store.Types.{Agent, Stage, Role, WorkflowContext, stage_eq}
use matea.Store.Contexts.{Contexts, get_workflow_context}
use matea.Ingress.Event.{WebhookEvent, Issue, PullRequest}
use matea.Workflow.Policy.{
  WorkflowPolicy, Preset, Gates, GateId, GateLevel, coder_requires_analyzed, reanalyze_while_dev,
  rerun_same_stage, review_warn_if_draft, coder_switch_agent, stage_transition_unassign,
  review_not_same_coder, build_policy, get_gate_level,
}
use matea.Dispatcher.Keys.{conversation_target}
use matea.Dispatcher.State.{
  State, Settings, Notice, comment, unassign, unassign_failed, emit, L1Code, review_on_closed_pr,
  review_requires_pr, no_pr_or_issue,
}

abbrev linked_pr : Option WorkflowContext → Option L1Code
linked_pr none = some review_requires_pr
linked_pr (some ctx) = if ctx.pr_id == 0 then some review_requires_pr else none

abbrev review_issue : String → Option Issue → Contexts → Option L1Code
review_issue repo none t = some no_pr_or_issue
review_issue repo (some i) t = linked_pr (get_workflow_context repo i.number t)

abbrev review_pr : String → Option PullRequest → Option Issue → Contexts → Option L1Code
review_pr repo (some p) i t = if str_eq p.state "closed" then some review_on_closed_pr else none
review_pr repo none i t = review_issue repo i t

-- checkReviewRequiresPR: `none` passes
unfoldable pub check_review_requires_pr : WebhookEvent → Contexts → Option L1Code
check_review_requires_pr evt t = review_pr evt.repo evt.pr evt.issue t

unfoldable pub check_l1 : WebhookEvent → Role → Contexts → Option L1Code
unfolding check_review_requires_pr
check_l1 evt Role.review t = check_review_requires_pr evt t
check_l1 evt role t = none

abbrev built : Option WorkflowPolicy → Option (Preset × Gates) → Option WorkflowPolicy
built global none = global
built global (some (preset, overrides)) = some (build_policy preset overrides)

-- getEffectivePolicy; the JSON of the overrides has been decoded
unfoldable pub get_effective_policy : Settings → String → Option WorkflowPolicy
get_effective_policy c repo = built c.policy (c.repo_policy repo)

abbrev when : Bool → GateId → List GateId
when b g = if b then g ∷ [] else []

unfoldable pub gates_for_transition : WorkflowContext → Role → List GateId
gates_for_transition ctx Role.coder =
    when (stage_eq ctx.stage Stage.idle || stage_eq ctx.stage Stage.done) coder_requires_analyzed
    ++ (when (stage_eq ctx.stage Stage.developing) rerun_same_stage
        ++ when (not (ctx.active_agent_id == 0)) coder_switch_agent)
gates_for_transition ctx Role.analyze =
    when (stage_eq ctx.stage Stage.developing) reanalyze_while_dev
    ++ when (stage_eq ctx.stage Stage.analyzing) rerun_same_stage
gates_for_transition ctx Role.review =
    review_warn_if_draft ∷ when (not (ctx.active_agent_id == 0)) review_not_same_coder
gates_for_transition ctx role = []

abbrev pub is_none {ℓ} : {A : Type ℓ} → Option A → Bool
is_none none = true
is_none (some a) = false

abbrev is_hard : GateLevel → Bool
is_hard GateLevel.hard = true
is_hard _ = false

abbrev is_off : GateLevel → Bool
is_off GateLevel.off = true
is_off _ = false

-- postGateComment: nothing is posted with no token, under no number, or for a repository of no owner
unfoldable pub post_gate_comment : String → Agent → ℕ → Notice → State → State
post_gate_comment repo agent target notice s =
    if str_eq agent.gitea_token "" || target == 0 || not (contains (codes repo) (codes "/"))
    then s
    else emit (comment agent target notice) s

abbrev unassign_agent : Bool → GateLevel → String → ℕ → Option Agent → State → State
unassign_agent fails level repo target none s = s
unassign_agent fails level repo target (some prev) s =
    if is_empty prev.gitea_username
    then s
    else if not fails
    then emit (unassign prev target) s
    else if is_hard level
    then post_gate_comment repo prev target unassign_failed s
    else s

-- unassignPreviousAgentOnTransition
unfoldable pub unassign_previous_agent : Settings → Bool → String → ℕ → ℕ → ℕ → ℕ → State → State
unfolding post_gate_comment
unassign_previous_agent c fails repo issue_id pr_id prev_agent_id new_agent_id s =
    let level = get_gate_level (get_effective_policy c repo) stage_transition_unassign in
    if is_none c.policy
      || is_off level
      || prev_agent_id == 0
      || prev_agent_id == new_agent_id
      || not (contains (codes repo) (codes "/"))
    then s
    else unassign_agent fails level repo (conversation_target issue_id pr_id)
        (c.agent_row prev_agent_id) s
