-- ===== src/Dispatcher/Cancels.antt =====
-- The registry of running tasks of internal/dispatcher/executor.go, and the resets from the web UI in
-- internal/dispatcher/dispatcher.go (ResetIssue, CancelAndResetTask), which cancel through it.
pub mod Frees
use matea.Base.{
  ℕ, String, Bool, true, false, not, ◌&&◌, Option, none, some, List, [], ◌∷◌, ◌++◌, map, ◌==◌,
  str_eq, any, select, find_first, length, if◌then◌else◌,
}
use matea.Store.Types.{Task}
use matea.Store.Tasks.{Tasks, get_task, reset_task, reset_tasks_by_issue}
use matea.Dispatcher.State.{State}
use matea.Dispatcher.Lifecycle.{reset_issue}
use matea.Dispatcher.Executor.{release_issue_lock}

-- external: cancelled from outside, so that the end of the run is not recorded
pub record RunningTask : Type 0 where
  pub task_id : ℕ
  pub repo : String
  pub issue_id : ℕ
  pub external : Bool

abbrev pub RunningTasks : Type 0
RunningTasks = List RunningTask

unfoldable pub register_running : Task → RunningTasks → RunningTasks
register_running task g =
    record { task_id = task.id; repo = task.repo; issue_id = task.issue_id; external = false }
    ∷ select (λ (r : RunningTask). not (r.task_id == task.id)) g

abbrev pub is_external : Option RunningTask → Bool
is_external none = false
is_external (some r) = r.external

-- whether the task was cancelled from outside, and the registry without it
unfoldable pub unregister_running : ℕ → RunningTasks → Bool × RunningTasks
unregister_running id g = (
  is_external (find_first (λ (r : RunningTask). r.task_id == id) g),
  select (λ (r : RunningTask). not (r.task_id == id)) g,
)

abbrev pub cancelled : (RunningTask → Bool) → RunningTasks → RunningTasks
cancelled p g = map (λ (r : RunningTask). if p r then record r { external = true } else r) g

unfoldable pub cancel_task : ℕ → RunningTasks → Bool × RunningTasks
cancel_task id g =
    (any (λ (r : RunningTask). r.task_id == id) g, cancelled (λ r. r.task_id == id) g)

abbrev pub runs_for : String → ℕ → RunningTask → Bool
runs_for repo n r = str_eq r.repo repo && r.issue_id == n

unfoldable pub cancel_by_issue : String → ℕ → RunningTasks → ℕ × RunningTasks
cancel_by_issue repo n g = (length (select (runs_for repo n) g), cancelled (runs_for repo n) g)

-- ResetIssue: the number of tasks reset, or `none` for the error of the database
unfoldable pub reset_issue_and_tasks :
    Bool → ℕ → String → ℕ → State → RunningTasks → Option ℕ × State × RunningTasks
unfolding cancel_by_issue
reset_issue_and_tasks fails now repo n s g =
    let g' : RunningTasks = (cancel_by_issue repo n g).1 in
    let (tasks, count) = reset_tasks_by_issue now repo n "workflow reset from web UI" s.tasks in
    let s' : State = record s { tasks = tasks } in
    if fails then (none, s, g') else (some count, reset_issue now repo n s', g')

abbrev after_reset : Task → State → Option Tasks → Bool × State
after_reset task s none = (false, s)
after_reset task s (some tasks) =
    (true, release_issue_lock task.repo task.issue_id (record s { tasks = tasks }))

-- CancelAndResetTask: false for a task that is not there or that has ended
unfoldable pub cancel_and_reset_task :
    ℕ → ℕ → String → State → RunningTasks → Bool × State × RunningTasks
unfolding cancel_task
cancel_and_reset_task now id reason s g = elim (get_task id s.tasks) [
  | none ↦ (false, s, g)
  | some task ↦
      let g' : RunningTasks = (cancel_task id g).1 in
      let r : Bool × State = after_reset task s (reset_task now id reason s.tasks) in (r.0, r.1, g')
]
