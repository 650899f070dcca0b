-- ===== src/Dispatcher/Execution/Ends.antt =====
-- What an execution leaves behind (Executor.execute of internal/dispatcher/executor.go).
use matea.Base.{
  ℕ, zero, suc, String, true, false, Option, none, some, ◌≡◌, ◌≢◌, refl, sym, ◌∙◌, ap, subst, arith,
  if◌then◌else◌,
}
use matea.Store.Types.{Agent, Task}
use matea.Store.Contexts.{get_workflow_context}
use matea.Store.Tasks.{is_live, get_task, has_pending_or_running_task}
use matea.Store.Tasks.Live.{OneLive}
use matea.Dispatcher.State.{State, Settings, is_locked}
use matea.Dispatcher.Cancels.{RunningTasks, register_running, unregister_running}
use matea.Dispatcher.Executor.{Delivery}
use matea.Dispatcher.Executor.Frees.{SavesEnds, finalize-frees}
use matea.Dispatcher.Execution.{
  Run, ran, run_failed, Attempt, RunError, run_task, retry, run_attempts, is_skipped,
  describe_error, marked_running, finish, execute,
}

-- the task is for the same row and the same issue as before
pub record SameTask (t u : Task) : Type 0 where
  pub id : u.id ≡ t.id
  pub repo : u.repo ≡ t.repo
  pub issue_id : u.issue_id ≡ t.issue_id

run_task-SameTask : (r : Run) (t u : Task) → SameTask t u → SameTask t (run_task r u).1
unfolding run_task
run_task-SameTask (ran content pr_id) t u h = ground arith
run_task-SameTask (run_failed e) t u h = h

retry-SameTask :
    (attempts : ℕ → Attempt) (left n : ℕ) (t : Task) (x : Option RunError × Task)
    → SameTask t x.1
    → SameTask t (retry attempts left n x).1
unfolding retry
retry-SameTask attempts zero n t (none, task) h = h
retry-SameTask attempts (suc left) n t (none, task) h = h
retry-SameTask attempts zero n t (some e, task) h = h
retry-SameTask attempts (suc left) n t (some e, task) h =
    let rest : SameTask t (retry attempts left (suc n) (run_task (attempts (suc n)).run task)).1 =
      retry-SameTask attempts left (suc n) t (run_task (attempts (suc n)).run task)
        (run_task-SameTask (attempts (suc n)).run t task h) in
    ground (arith, rest)

run_attempts-SameTask :
    (attempts : ℕ → Attempt) (retry_count : ℕ) (t : Task)
    → SameTask t (run_attempts attempts retry_count t).1
unfolding run_attempts
run_attempts-SameTask attempts retry_count t =
    retry-SameTask attempts retry_count 0 t (run_task (attempts 0).run t)
      (run_task-SameTask (attempts 0).run t t (record { id = refl; repo = refl; issue_id = refl }))

-- the issue is free for the next event
pub record IsFree (repo : String) (n : ℕ) (s : State) : Type 0 where
  pub idle : has_pending_or_running_task repo n s.tasks ≡ false
  pub unlocked : is_locked (repo, n) s.in_flight ≡ false

module _ (c : Settings) (d : Delivery) (now retry_count : ℕ) (attempts : ℕ → Attempt)
    (describe : RunError → String) (others : State × RunningTasks → State × RunningTasks) where
  -- what the other handlers have made of the state and the registry when the attempts are over
  abbrev pub after_run : Task → State → RunningTasks → State × RunningTasks
  after_run task s g =
      others (
        marked_running c d now retry_count attempts describe others task s,
        register_running task g,
      )

  finish-IsFree :
      (x : Option RunError × Task) (task : Task) (s : State) (row : Task)
      → SameTask task x.1
      → SavesEnds d
      → d.context_fails ≡ false
      → OneLive s.tasks
      → get_task task.id s.tasks ≡ some row
      → is_live row.status ≡ true
      → row.repo ≡ task.repo
      → row.issue_id ≡ task.issue_id
      → get_workflow_context task.repo task.issue_id s.contexts ≢ none
      → IsFree task.repo task.issue_id (finish c d now retry_count attempts describe others x s)
  finish-IsFree (e, u) task s row same saves reads v found live repo issue context =
      let end : State = finish c d now retry_count attempts describe others (e, u) s in
      let found' : get_task u.id s.tasks ≡ some row =
        ap (λ i. get_task i s.tasks) same.id ∙ found in
      let context' : get_workflow_context u.repo u.issue_id s.contexts ≢ none = λ h. context (
        ap (λ r. get_workflow_context r task.issue_id s.contexts) (sym same.repo)
        ∙ ap (λ n. get_workflow_context u.repo n s.contexts) (sym same.issue_id)
        ∙ h) in
      let freed =
        finalize-frees c d now u (describe_error c d now retry_count attempts describe others e) s
          row saves reads v found' live (repo ∙ sym same.repo) (issue ∙ sym same.issue_id)
          context' in
      let there : IsFree u.repo u.issue_id end = record { idle = freed.0; unlocked = freed.1 } in
      subst (λ n. IsFree task.repo n end) same.issue_id
        (subst (λ r. IsFree r u.issue_id end) same.repo there)

  -- An execution that is not skipped, of a task whose agent is there, and whose run is not marked as cancelled
  -- in the registry when its attempts are over, comes to an end in which its issue is unlocked and has no
  -- pending or running task, whatever the attempts answer, however many fail, and whatever the other handlers
  -- do meanwhile, as long as they leave the task live, as the one such task of its issue, and the issue its
  -- context, and the context can be read and the final status saved.
  pub execute-frees :
      (task row : Task) (agent : Agent) (s : State) (g : RunningTasks)
      → is_skipped (if d.task_fails then none else get_task task.id s.tasks) ≡ false
      → c.agent_row task.agent_id ≡ some agent
      → (unregister_running task.id (after_run task s g).1).0 ≡ false
      → SavesEnds d
      → d.context_fails ≡ false
      → OneLive (after_run task s g).0.tasks
      → get_task task.id (after_run task s g).0.tasks ≡ some row
      → is_live row.status ≡ true
      → row.repo ≡ task.repo
      → row.issue_id ≡ task.issue_id
      → get_workflow_context task.repo task.issue_id (after_run task s g).0.contexts ≢ none
      → IsFree task.repo task.issue_id
          (execute c d now retry_count attempts describe others task s g).0
  unfolding execute
  execute-frees task row agent s g go_on loaded kept saves reads v found live repo issue context =
      let s2 : State = (after_run task s g).0 in
      let x : Option RunError × Task = run_attempts attempts retry_count task in
      let end : State = finish c d now retry_count attempts describe others x s2 in
      let same : end ≡ (execute c d now retry_count attempts describe others task s g).0 =
        rw (go_on, loaded, kept) refl in
      subst (IsFree task.repo task.issue_id) same (
        finish-IsFree x task s2 row (run_attempts-SameTask attempts retry_count task) saves reads v
          found live repo issue context)

  -- an aborted run leaves all as the other handlers have left it
  pub execute-aborted :
      (task : Task) (agent : Agent) (s : State) (g : RunningTasks)
      → is_skipped (if d.task_fails then none else get_task task.id s.tasks) ≡ false
      → c.agent_row task.agent_id ≡ some agent
      → (unregister_running task.id (after_run task s g).1).0 ≡ true
      → (execute c d now retry_count attempts describe others task s g).0 ≡ (after_run task s g).0
  unfolding execute
  execute-aborted task agent s g go_on loaded marked = rw (go_on, loaded, marked) refl
