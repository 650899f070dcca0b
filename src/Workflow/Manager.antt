-- ===== src/Workflow/Manager.antt =====
-- WorkflowManager of internal/workflow/context.go: which stage a role may enter, and what becomes of
-- the stage when a task ends. The methods that save the context return the new table too.
-- The texts of reasons are kept as the cases that they name.
pub mod Admission
pub mod Rollback
pub mod Life
use matea.Base.{ℕ, Bool, true, false, String, Option, none, some, ltb, if◌then◌else◌}
use matea.Store.Types.{
  Stage, Role, TaskType, WorkflowContext, stage_eq, analyze_issue, reply_comment, solve_comment,
  solve_issue, fix_bug, review_pr,
}
use matea.Store.Contexts.{Contexts, update_workflow_context, transition_stage}

pub data Reason : Type 0 where
  no_reason analysis_running reanalyze_developing reanalyze_reviewing : Reason
  rerun_developing back_from_review redo_from_done wait_for_analysis : Reason
  unknown_role : Role → Reason
  bad_stage : Stage → Reason

pub record TransitionResult : Type 0 where
  pub allowed : Bool
  pub new_stage : Stage
  pub reason : Reason
  pub skip_task : Bool

abbrev pub allow : Stage → Reason → TransitionResult
allow stage reason = record {
  allowed = true;
  new_stage = stage;
  reason = reason;
  skip_task = false;
}

abbrev pub block : Reason → Bool → TransitionResult
block reason skip = record {
  allowed = false;
  new_stage = Stage.unset;
  reason = reason;
  skip_task = skip;
}

transition_analyze : Stage → TransitionResult
transition_analyze Stage.idle = allow Stage.analyzing no_reason
transition_analyze Stage.analyzed = allow Stage.analyzing no_reason
transition_analyze Stage.done = allow Stage.analyzing no_reason
transition_analyze Stage.analyzing = block analysis_running true
transition_analyze Stage.developing = allow Stage.analyzing reanalyze_developing
transition_analyze Stage.reviewing = allow Stage.analyzing reanalyze_reviewing
transition_analyze Stage.unset = block (bad_stage Stage.unset) false
transition_analyze (Stage.other s) = block (bad_stage (Stage.other s)) false

transition_coder : Stage → TransitionResult
transition_coder Stage.idle = allow Stage.developing no_reason
transition_coder Stage.analyzed = allow Stage.developing no_reason
transition_coder Stage.developing = allow Stage.developing rerun_developing
transition_coder Stage.reviewing = allow Stage.developing back_from_review
transition_coder Stage.done = allow Stage.developing redo_from_done
transition_coder Stage.analyzing = block wait_for_analysis false
transition_coder Stage.unset = block (bad_stage Stage.unset) false
transition_coder (Stage.other s) = block (bad_stage (Stage.other s)) false

transition_review : Stage → TransitionResult
transition_review stage = allow Stage.reviewing no_reason

by_role : Role → Stage → TransitionResult
unfolding transition_analyze transition_coder transition_review
by_role Role.analyze stage = transition_analyze stage
by_role Role.coder stage = transition_coder stage
by_role Role.review stage = transition_review stage
by_role Role.unset stage = block (unknown_role Role.unset) false
by_role (Role.other r) stage = block (unknown_role (Role.other r)) false

unfoldable pub transition : WorkflowContext → Role → TransitionResult
unfolding by_role
transition ctx role = by_role role ctx.stage

-- `none` is the error for a transition that is not allowed.
unfoldable pub apply_transition :
    WorkflowContext
    → TransitionResult
    → ℕ
    → Role
    → String
    → Contexts
    → Option (WorkflowContext × Contexts)
unfolding transition_stage
apply_transition ctx result agent_id role session_id t =
    if result.allowed
    then some (transition_stage ctx result.new_stage agent_id role session_id t)
    else none

-- no workflow owner, back in the given stage
abbrev pub reverted : WorkflowContext → Stage → WorkflowContext
reverted ctx stage = record ctx {
  stage = stage;
  previous_stage = Stage.unset;
  active_agent_id = 0;
  active_role = Role.unset;
  session_id = "";
}

-- analyzing is a transient mark, and no stage to go back to
abbrev pub rollback_target : Stage → Stage
rollback_target previous = if stage_eq previous Stage.analyzing then Stage.idle else previous

unfoldable pub rollback_transient_stage : WorkflowContext → WorkflowContext
rollback_transient_stage ctx =
    if stage_eq ctx.previous_stage Stage.unset
    then ctx
    else if stage_eq (rollback_target ctx.previous_stage) ctx.stage
    then record ctx { previous_stage = Stage.unset }
    else reverted ctx (rollback_target ctx.previous_stage)

abbrev pub with_pr : ℕ → WorkflowContext → WorkflowContext
with_pr pr_id ctx = if ltb 0 pr_id then record ctx { pr_id = pr_id } else ctx

-- what OnTaskComplete makes of the context before it saves it
unfoldable pub completed : TaskType → ℕ → WorkflowContext → WorkflowContext
unfolding rollback_transient_stage
completed analyze_issue pr_id ctx = record ctx { stage = Stage.analyzed }
completed solve_issue pr_id ctx = with_pr pr_id ctx
completed fix_bug pr_id ctx = with_pr pr_id ctx
completed review_pr pr_id ctx = with_pr pr_id ctx
completed reply_comment pr_id ctx = rollback_transient_stage (with_pr pr_id ctx)
completed solve_comment pr_id ctx =
    if ltb 0 pr_id then record ctx { pr_id = pr_id } else rollback_transient_stage ctx
completed (TaskType.other s) pr_id ctx = ctx

unfoldable pub on_task_complete : WorkflowContext → TaskType → ℕ → Contexts → Contexts
unfolding completed
on_task_complete ctx task_type pr_id t = update_workflow_context (completed task_type pr_id ctx) t

abbrev pub failure_target : Stage → Stage
failure_target previous =
    if stage_eq previous Stage.unset then Stage.idle else rollback_target previous

-- `none`: the context is left alone and not saved
unfoldable pub failed_context : TaskType → WorkflowContext → Option WorkflowContext
failed_context analyze_issue ctx =
    if stage_eq ctx.stage Stage.analyzing
    then some (reverted ctx (failure_target ctx.previous_stage))
    else none
failed_context task_type ctx = none

unfoldable pub on_task_failed : WorkflowContext → TaskType → Contexts → Contexts
unfolding failed_context
on_task_failed ctx task_type t = elim (failed_context task_type ctx) [
  | some ctx' ↦ update_workflow_context ctx' t
  | none ↦ t
]
