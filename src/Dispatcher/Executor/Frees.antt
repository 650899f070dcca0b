-- ===== src/Dispatcher/Executor/Frees.antt =====
-- The end of a task frees its issue (finalizeTaskResult of internal/dispatcher/executor.go).
use matea.Base.{
  ℕ, String, Bool, true, false, if◌then◌else◌, Option, none, some, ◌≡◌, ◌≢◌, sym, subst, arith,
  eq_iff,
}
use matea.Store.Types.{Task, TaskStatus}
use matea.Store.Contexts.{get_workflow_context}
use matea.Store.Tasks.{
  Tasks, is_live, is_live_of, has_pending_or_running_task, get_task, update_task_status,
}
use matea.Store.Tasks.Live.{OneLive}
use matea.Dispatcher.State.{State, Settings, is_locked}
use matea.Dispatcher.Pipeline.Locks.{is_locked-unlock}
use matea.Dispatcher.Executor.{
  Delivery, WritebackError, write_back_to_gitea, finalize_task_result, on_failed,
}
use matea.Dispatcher.Executor.Endings.{
  saved_count, saved_idle, none_counted, finalize-in_flight, finalize-tasks, write_back-SameStore,
  write_failure-SameStore, write_partial-SameStore,
}

update_ended-OneLive :
    (id : ℕ) (status : TaskStatus) (result error : String) (t : Tasks)
    → is_live status ≡ false
    → OneLive t
    → OneLive (update_task_status id status result error t)
unfolding update_task_status
update_ended-OneLive id status result error t ended v = record {
  one =
      λ repo n. omega (arith, saved_count repo n id status result error ended t.rows, v.one repo n);
}

update_ended-idle :
    (repo : String) (n id : ℕ) (status : TaskStatus) (result error : String) (t : Tasks)
    (row : Task)
    → is_live status ≡ false
    → OneLive t
    → get_task id t ≡ some row
    → is_live_of repo n row ≡ true
    → has_pending_or_running_task repo n (update_task_status id status result error t) ≡ false
unfolding update_task_status get_task has_pending_or_running_task
update_ended-idle repo n id status result error t row ended v found live =
    none_counted repo n _
      (saved_idle repo n id status result error ended t.rows row (v.one repo n) found live)

-- the final status of a task can be saved
abbrev pub SavesEnds : Delivery → Type 0
SavesEnds d = (status : TaskStatus) → is_live status ≡ false → d.save_fails status ≡ false

if-either {ℓ κ} :
    {A : Type ℓ} (P : A → Type κ) (b : Bool) {x y : A} → P x → P y → P (if b then x else y)
if-either P true px py = px
if-either P false px py = py

module _ (c : Settings) (d : Delivery) (now : ℕ) (task : Task) (run_error : Option String) where
  -- If no issue has two tasks that are pending or running, then none has after the end of a task.
  pub finalize-OneLive :
      (s : State) → OneLive s.tasks → OneLive (finalize_task_result c d now task run_error s).tasks
  finalize-OneLive s v =
      let (status, result, error, ended, same) = finalize-tasks c d now task run_error s in
      subst OneLive (sym same) (
        if-either OneLive (d.save_fails status) v
          (update_ended-OneLive task.id status result error s.tasks ended v))

  -- Whatever the run and the delivery of its result came to, the end of a live task of an issue that
  -- has a context, which can be read, and no second live task, leaves the issue unlocked and, as the final
  -- status can be saved, with no pending or running task. The other writes of the database may fail.
  pub finalize-frees :
      (s : State) (row : Task)
      → SavesEnds d
      → d.context_fails ≡ false
      → OneLive s.tasks
      → get_task task.id s.tasks ≡ some row
      → is_live row.status ≡ true
      → row.repo ≡ task.repo
      → row.issue_id ≡ task.issue_id
      → get_workflow_context task.repo task.issue_id s.contexts ≢ none
      → (has_pending_or_running_task task.repo task.issue_id
            (finalize_task_result c d now task run_error s).tasks
          ≡ false)
        × (is_locked
              (task.repo, task.issue_id)
              (finalize_task_result c d now task run_error s).in_flight
            ≡ false)
  finalize-frees s row saves reads v found live repo issue context =
      let (status, result, error, ended, same) = finalize-tasks c d now task run_error s in
      (
        rw (same, saves status ended)
            (update_ended-idle task.repo task.issue_id task.id status result error s.tasks row ended
              v found (ground (arith, eq_iff row.repo task.repo))),
        rw (finalize-in_flight c d now task run_error s reads context)
            (is_locked-unlock (task.repo, task.issue_id) s.in_flight),
      )

module _ (c : Settings) (d : Delivery) (now : ℕ) (task : Task) where
  -- For the workflow, a result that could not be delivered is a failed run: the contexts, the sessions
  -- and the locks are the same, so that the stage never moves on behind an undelivered result.
  pub finalize-undelivered :
      (s : State) (why : WritebackError) (error : String)
      → (write_back_to_gitea c d now task s).0 ≡ some why
      → ((finalize_task_result c d now task none s).contexts
          ≡ (finalize_task_result c d now task (some error) s).contexts)
        × ((finalize_task_result c d now task none s).sessions
            ≡ (finalize_task_result c d now task (some error) s).sessions)
        × ((finalize_task_result c d now task none s).in_flight
            ≡ (finalize_task_result c d now task (some error) s).in_flight)
  unfolding finalize_task_result on_failed
  finalize-undelivered s why error h = ground (
    arith,
    write_back-SameStore c d now task s,
    write_failure-SameStore c d now task s,
    write_partial-SameStore c d now task (write_back_to_gitea c d now task s).1,
  )
