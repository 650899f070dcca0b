-- ===== src/Dispatcher/Restart.antt =====
-- What a restart does to the tasks that the last process left behind: Dispatcher.Start of
-- internal/dispatcher/dispatcher.go and ReattachHubHandles of internal/dispatcher/executor.go.
pub mod Resumes
pub mod Settles
use matea.Base.{ℕ, String, Bool, true, false, Option, none, some, List, [], ◌∷◌, if◌then◌else◌}
use matea.Store.Types.{Task, TaskStatus}
use matea.Store.Tasks.{Tasks, get_task, update_task_status, fail_orphaned_running_tasks_except_hub}
use matea.Store.Handles.{
  HubHandle, HubStatus, Handles, list_non_terminal_hub_handles, update_hub_handle_status,
  has_non_terminal_hub_handle,
}
use matea.Dispatcher.Queue.{offer, load_pending}

-- what a restart changes
pub record Restart : Type 0 where
  pub tasks : Tasks
  pub channel : List Task
  pub handles : Handles

-- which of the queries fail
pub record RestartFaults : Type 0 where
  pub orphans_fail : Bool
  pub pending_fail : Bool
  pub handles_fail : Bool

-- how the handle of a task that has ended is reconciled
abbrev pub reconciled : TaskStatus → HubStatus
reconciled TaskStatus.success = HubStatus.done
reconciled TaskStatus.partial = HubStatus.done
reconciled _ = HubStatus.failed

module _ (now size : ℕ) where
  abbrev pub reconcile : ℕ → HubStatus → Restart → Restart
  reconcile id status s = record s { handles = update_hub_handle_status now id status s.handles }

  abbrev pub reattach_task : ℕ → Task → TaskStatus → Restart → Restart
  reattach_task id task TaskStatus.pending s = s
  reattach_task id task TaskStatus.running s = record s {
    tasks = update_task_status id TaskStatus.pending "" "" s.tasks;
    channel = offer size task s.channel;
  }
  reattach_task id task status s = reconcile id (reconciled status) s

  -- the body of the loop, with the task that was loaded
  abbrev pub reattach_found : ℕ → Option Task → Restart → Restart
  reattach_found id none s = reconcile id HubStatus.failed s
  reattach_found id (some task) s = reattach_task id task task.status s

  unfoldable pub reattach_all : List HubHandle → Restart → Restart
  reattach_all [] s = s
  reattach_all (h ∷ hs) s =
      reattach_all hs (reattach_found h.task_id (get_task h.task_id s.tasks) s)

  unfoldable pub reattach_hub_handles : Restart → Restart
  unfolding reattach_all
  reattach_hub_handles s = reattach_all (list_non_terminal_hub_handles s.handles) s

  abbrev pub fail_orphans : Bool → Restart → Restart
  fail_orphans fails s = if fails then s else record s {
    tasks =
        (fail_orphaned_running_tasks_except_hub now "matea restarted; interrupted running task"
          (λ id. has_non_terminal_hub_handle id s.handles) s.tasks).0;
  }

  -- Start, up to the workers and the scanner; the Boolean is false where it returns an error.
  unfoldable pub start : RestartFaults → Restart → Bool × Restart
  unfolding reattach_hub_handles
  start f s =
      let s1 = fail_orphans f.orphans_fail s in
      let s2 : Restart = record s1 { channel = load_pending size s1.tasks s1.channel } in
      if f.pending_fail
      then (false, s1)
      else if f.handles_fail
      then (true, s2)
      else (true, reattach_hub_handles s2)
