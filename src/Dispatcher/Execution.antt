-- ===== src/Dispatcher/Execution.antt =====
-- Executor.execute of internal/dispatcher/executor.go: the runs of a task up to its end. What the runs
-- answer, when its context is done, and what the program's other handlers do meanwhile, to the state and to
-- the registry of running tasks, are arguments.
pub mod Retries
pub mod Ends
use matea.Base.{
  ℕ, zero, suc, ◌+◌, String, Bool, true, false, not, Option, none, some, ltb, if◌then◌else◌,
}
use matea.Store.Types.{Agent, Task, running}
use matea.Store.Tasks.{Tasks, is_live, get_task, update_task_status}
use matea.Dispatcher.State.{State, Settings}
use matea.Dispatcher.Cancels.{RunningTasks, register_running, unregister_running}
use matea.Dispatcher.Executor.{Delivery, finalize_task_result}

-- what a runner answers: content and the PR that it opened (0: none), or an error
pub data Run : Type 0 where
  ran : String → ℕ → Run
  run_failed : String → Run

-- One attempt: whether the task's context is done before it, done in the pause before it, and done
-- after it, and what the runner answers.
pub record Attempt : Type 0 where
  pub cancelled_before : Bool
  pub cancelled_waiting : Bool
  pub cancelled_after : Bool
  pub run : Run

pub data RunError : Type 0 where
  load_agent before_retry retry_backoff : RunError
  runner_execution : String → RunError

-- runTask
unfoldable pub run_task : Run → Task → Option RunError × Task
run_task (run_failed e) task = (some (runner_execution e), task)
run_task (ran content pr_id) task =
    (none, record task { result = content; pr_id = if ltb 0 pr_id then pr_id else task.pr_id })

module _ (attempts : ℕ → Attempt) where
  -- The attempts behind the one with the given number, `left` of them at most, after its answer.
  unfoldable pub retry : ℕ → ℕ → Option RunError × Task → Option RunError × Task
  unfolding run_task
  retry left n (none, task) = (none, task)
  retry zero n (some e, task) = (some e, task)
  retry (suc left) n (some e, task) =
      let a = attempts n in
      let next = attempts (suc n) in
      let rest = retry left (suc n) (run_task next.run task) in
      if a.cancelled_after
      then (some e, task)
      else if next.cancelled_before
      then (some before_retry, task)
      else if next.cancelled_waiting
      then (some retry_backoff, task)
      else rest

  -- the loop over the attempts 0, ..., retry_count
  unfoldable pub run_attempts : ℕ → Task → Option RunError × Task
  unfolding retry run_task
  run_attempts retry_count task = retry retry_count 0 (run_task (attempts 0).run task)

abbrev pub is_skipped : Option Task → Bool
is_skipped none = false
is_skipped (some fresh) = not (is_live fresh.status)

module _ (c : Settings) (d : Delivery) (now retry_count : ℕ) (attempts : ℕ → Attempt)
    (describe : RunError → String) (others : State × RunningTasks → State × RunningTasks) where
  abbrev pub describe_error : Option RunError → Option String
  describe_error none = none
  describe_error (some e) = some (describe e)

  abbrev pub marked_running : Task → State → State
  marked_running task s =
      if d.save_fails running
      then s
      else record s { tasks = update_task_status task.id running "" "" s.tasks }

  abbrev pub finish : Option RunError × Task → State → State
  finish (e, task) s = finalize_task_result c d now task (describe_error e) s

  -- the end of the attempts, with what unregisterRunning answers: a run that was aborted by a reset is not ended
  abbrev pub end_run : Task → State → Bool × RunningTasks → State × RunningTasks
  end_run task s (aborted, g) =
      (if aborted then s else finish (run_attempts attempts retry_count task) s, g)

  unfoldable pub execute : Task → State → RunningTasks → State × RunningTasks
  unfolding run_attempts register_running unregister_running
  execute task s g =
      let s1 = marked_running task s in
      if is_skipped (if d.task_fails then none else get_task task.id s.tasks)
      then (s, g)
      else elim (c.agent_row task.agent_id) [
        | none ↦ (finish (some load_agent, task) s1, g)
        | some agent ↦
            let (s2, g2) = others (s1, register_running task g) in
            end_run task s2 (unregister_running task.id g2)
      ]
