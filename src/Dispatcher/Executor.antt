-- ===== src/Dispatcher/Executor.antt =====
-- internal/dispatcher/executor.go: the end of a task, with the callbacks that SetWorkflowComponents of
-- internal/dispatcher/dispatcher.go wires. All components are configured but, possibly, the policy.
pub mod Endings
pub mod Frees
use matea.Base.{
  ℕ, zero, suc, ◌+◌, String, Bool, true, false, not, ◌&&◌, ◌||◌, Option, none, some, List, ltb,
  codes, contains, str_eq, if◌then◌else◌,
}
use matea.Store.Types.{
  Agent, AgentSession, Task, TaskType, TaskStatus, pending, running, success, failed, partial,
  status_eq, WorkflowContext,
}
use matea.Store.Contexts.{Contexts, get_workflow_context}
use matea.Store.Tasks.{update_task_status, get_task}
use matea.Store.Sessions.{get_session}
use matea.Workflow.Manager.{on_task_complete, on_task_failed}
use matea.Workflow.Sessions.{complete_task}
use matea.Dispatcher.Keys.{writeback_target_id}
use matea.Dispatcher.State.{
  State, Settings, emit, unlock, result_comment, card_done, card_failed, failure_comment,
  undelivered_comment,
}

-- Why a result was not posted.
pub data WritebackError : Type 0 where
  no_result no_target no_agent bad_repo post_failed : WritebackError

-- Which of the calls of Gitea and of the database fails, and what an error says. A task whose status is not
-- saved keeps its row, which the source does not notice; one whose agent is not read has none in the settings.
pub record Delivery : Type 0 where
  pub post_fails : Bool
  pub card_fails : Bool
  -- GetTask, GetWorkflowContext and GetSession
  pub task_fails : Bool
  pub context_fails : Bool
  pub session_fails : Bool
  -- UpdateWorkflowContext, UpdateSession and, by the status, UpdateTaskStatus
  pub context_save_fails : Bool
  pub session_save_fails : Bool
  pub save_fails : TaskStatus → Bool
  pub say : WritebackError → String

abbrev has_owner : String → Bool
has_owner repo = contains (codes repo) (codes "/")

unfoldable pub release_issue_lock : String → ℕ → State → State
release_issue_lock repo issue_id s = record s { in_flight = unlock (repo, issue_id) s.in_flight }

module _ (c : Settings) (d : Delivery) (now : ℕ) (task : Task) where
  abbrev post_result : Agent → ℕ → State → Option WritebackError × State
  post_result agent target s =
      if not (has_owner task.repo)
      then (some bad_repo, s)
      else if d.post_fails
      then (some post_failed, s)
      else (none, emit (result_comment agent target task.id) s)

  unfoldable pub write_back_to_gitea : State → Option WritebackError × State
  write_back_to_gitea s =
      if str_eq task.result "" then (some no_result, s) else elim (writeback_target_id task) [
        | none ↦ (some no_target, s)
        | some target ↦ elim (c.agent_row task.agent_id) [
          | none ↦ (some no_agent, s)
          | some agent ↦ post_result agent target s
        ]
      ]

  abbrev show_failure : Agent → ℕ → State → State
  show_failure agent target s =
      if not d.card_fails
      then emit (card_failed task.id target) s
      else if not (has_owner task.repo) || d.post_fails
      then s
      else emit (failure_comment agent target task.id) s

  unfoldable pub write_failure_to_gitea : State → State
  write_failure_to_gitea s = elim (writeback_target_id task) [
    | none ↦ s
    | some target ↦ elim (c.agent_row task.agent_id) [
      | none ↦ s
      | some agent ↦ show_failure agent target s
    ]
  ]

  -- the administrator's notice about a result that was not posted
  unfoldable pub write_partial_failure_comment : State → State
  write_partial_failure_comment s = elim (writeback_target_id task) [
    | none ↦ s
    | some target ↦ if has_owner task.repo then emit (undelivered_comment task.id target) s else s
  ]

  abbrev completes_card : TaskType → Bool
  completes_card (TaskType.other s) = false
  completes_card _ = true

  abbrev complete_card : Option ℕ → State → State
  complete_card none s = s
  complete_card (some target) s =
      if completes_card task.task_type && not d.card_fails
      then emit (card_done task.id target) s
      else s

  -- postL3Notification, less the guidance that it folds into the card
  unfoldable pub post_l3_notification : State → State
  post_l3_notification s = elim c.policy [
    | none ↦ s
    | some policy ↦ elim (c.agent_row task.agent_id) [
      | none ↦ s
      | some agent ↦
          if str_eq agent.gitea_token "" then s else complete_card (writeback_target_id task) s
    ]
  ]

  abbrev complete_session : Option AgentSession → State → State
  complete_session none s = s
  complete_session (some session) s = if d.session_save_fails then s else record s {
    sessions = (complete_task now session task.id session.branch none s.sessions).1;
  }

  -- the session that the callback looks up
  abbrev session_of : State → Option AgentSession
  session_of s =
      if str_eq task.session_id "" || d.session_fails
      then none
      else get_session task.session_id s.sessions

  -- the context that a callback looks up
  abbrev pub context_of : State → Option WorkflowContext
  context_of s =
      if d.context_fails then none else get_workflow_context task.repo task.issue_id s.contexts

  abbrev pub with_contexts : Contexts → State → State
  with_contexts t s = if d.context_save_fails then s else record s { contexts = t }

  -- The callback for a task that has succeeded: with no context it returns before it unlocks the issue.
  unfoldable pub on_complete : State → State
  unfolding post_l3_notification release_issue_lock
  on_complete s = elim (context_of s) [
    | none ↦ s
    | some ctx ↦
        let s' = with_contexts (on_task_complete ctx task.task_type task.pr_id s.contexts) s in
        release_issue_lock task.repo task.issue_id
          (post_l3_notification (complete_session (session_of s') s'))
  ]

  abbrev pub rolled_back : Option WorkflowContext → Contexts → Contexts
  rolled_back none t = t
  rolled_back (some ctx) t = on_task_failed ctx task.task_type t

  -- the callback for a task that has failed
  unfoldable pub on_failed : State → State
  unfolding release_issue_lock
  on_failed s =
      release_issue_lock task.repo task.issue_id
        (with_contexts (rolled_back (context_of s) s.contexts) s)

  abbrev pub saved_as : TaskStatus → String → String → State → State
  saved_as status result error s =
      if d.save_fails status
      then s
      else record s { tasks = update_task_status task.id status result error s.tasks }

  abbrev pub delivered : Option WritebackError × State → State
  delivered (some e, s) =
      saved_as partial task.result (d.say e) (on_failed (write_partial_failure_comment s))
  delivered (none, s) = saved_as success task.result "" (on_complete s)

  -- finalizeTaskResult, with the error of the run
  unfoldable pub finalize_task_result : Option String → State → State
  unfolding on_complete on_failed write_back_to_gitea write_failure_to_gitea
      write_partial_failure_comment
  finalize_task_result (some error) s =
      saved_as failed "" error (on_failed (write_failure_to_gitea s))
  finalize_task_result none s = delivered (write_back_to_gitea s)

  -- handleTaskPanic saves the status before it calls back
  unfoldable pub handle_task_panic : String → State → State
  unfolding on_failed write_failure_to_gitea
  handle_task_panic error s = on_failed (write_failure_to_gitea (saved_as failed "" error s))
