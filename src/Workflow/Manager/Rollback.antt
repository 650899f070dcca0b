-- ===== src/Workflow/Manager/Rollback.antt =====
-- What a finished or failed task leaves of the stage that its start entered
-- (OnTaskComplete, OnTaskFailed and rollbackTransientStage of internal/workflow/context.go).
use matea.Base.{ℕ, String, ◌≡◌, ◌≢◌, true, false, none, some, arith}
use matea.Store.Types.{
  Stage, Role, TaskType, WorkflowContext, analyze_issue, reply_comment, solve_comment,
}
use matea.Store.Contexts.{staged}
use matea.Workflow.Manager.{
  transition, completed, failed_context, rollback_target, reverted, with_pr,
}

-- The context that the start of a task by the role saves.
abbrev pub started : WorkflowContext → ℕ → Role → String → WorkflowContext
started ctx agent_id role session_id =
    staged ctx (transition ctx role).new_stage agent_id role session_id

-- The stage that an issue shows again after a passing task.
abbrev pub shown_again : Stage → Stage
shown_again Stage.analyzing = Stage.idle
shown_again s = s

module _ (ctx : WorkflowContext) (agent_id : ℕ) (role : Role) (session_id : String) where
  -- A reply by an agent whose role may start, in a context with a stage: when it has finished, and
  -- also when a comment to solve has ended with no PR, the stage is the one before the task, with
  -- analyzing read as idle.
  pub reply-restores_stage :
      (pr_id : ℕ)
      → ctx.stage ≢ Stage.unset
      → (transition ctx role).allowed ≡ true
      → ((completed reply_comment pr_id (started ctx agent_id role session_id)).stage
          ≡ shown_again ctx.stage)
        × ((completed solve_comment 0 (started ctx agent_id role session_id)).stage
            ≡ shown_again ctx.stage)
  unfolding completed staged transition
  reply-restores_stage pr_id k h = (ground arith, ground arith)

  -- If the task entered another stage, the finished reply leaves the issue with no owner and nothing
  -- to go back to, and keeps a PR that it was given.
  pub reply-releases_owner :
      (pr_id : ℕ)
      → ctx.stage ≢ Stage.unset
      → (transition ctx role).allowed ≡ true
      → (transition ctx role).new_stage ≢ rollback_target ctx.stage
      → completed reply_comment pr_id (started ctx agent_id role session_id)
        ≡ reverted (with_pr pr_id ctx) (rollback_target ctx.stage)
  unfolding completed staged transition
  reply-releases_owner pr_id k h ne = ground arith

module _ (ctx : WorkflowContext) (agent_id : ℕ) (session_id : String)
    (may : (transition ctx Role.analyze).allowed ≡ true) where
  -- A failed analysis restores the stage in which it was started, with no owner.
  pub analyze_failed-restores :
      failed_context analyze_issue (started ctx agent_id Role.analyze session_id)
      ≡ some (reverted ctx ctx.stage)
  unfolding failed_context staged transition
  analyze_failed-restores = ground arith

  -- Any other task that an analyzing agent started and that fails, such as a reply to a mention, is
  -- not rolled back, and the issue then admits neither an analysis nor a coder.
  pub reply_failed-blocks :
      (task_type : TaskType)
      → task_type ≢ analyze_issue
      → (failed_context task_type (started ctx agent_id Role.analyze session_id) ≡ none)
        × ((transition (started ctx agent_id Role.analyze session_id) Role.analyze).allowed ≡ false)
        × ((transition (started ctx agent_id Role.analyze session_id) Role.coder).allowed ≡ false)
  unfolding failed_context staged transition
  reply_failed-blocks task_type ne = (ground arith, ground arith, ground arith)
