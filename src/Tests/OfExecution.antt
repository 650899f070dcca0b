-- ===== src/Tests/OfExecution.antt =====
-- The end of tasks: internal/dispatcher/executor.go and queue.go.
use matea.Base.{ℕ, zero, suc, String, false, not, none, some, [], ◌∷◌, ◌≡◌, refl, arith}
use matea.Store.Contexts.{get_workflow_context}
use matea.Store.Tasks.{get_task, update_task_status, has_pending_or_running_task}
use matea.Store.Tasks.Live.{OneLive}
use matea.Dispatcher.State.{State, Settings, is_locked}
use matea.Dispatcher.Cancels.{RunningTasks, register_running, unregister_running}
use matea.Dispatcher.Executor.{Delivery, finalize_task_result, write_back_to_gitea, no_result}
use matea.Dispatcher.Executor.Frees.{SavesEnds, finalize-frees, finalize-undelivered}
use matea.Dispatcher.Execution.{Attempt, RunError, ran, run_failed, run_attempts, execute}
use matea.Dispatcher.Execution.Retries.{has_failed, one_succeeds, Undisturbed, run_attempts-fails}
use matea.Dispatcher.Execution.Ends.{IsFree, execute-frees}
use matea.Tests.Samples.{settings, analyst, empty_state, one_context, one_task, session_a, task_1}

abbrev with_agents : Settings
with_agents = record settings { agent_row = λ id. some analyst }

abbrev works : Delivery
works = record {
  post_fails = false;
  card_fails = false;
  task_fails = false;
  context_fails = false;
  session_fails = false;
  context_save_fails = false;
  session_save_fails = false;
  save_fails = λ st. false;
  say = λ e. "not posted";
}

ends_saved : SavesEnds works
ends_saved = λ st e. refl

-- the first attempt fails and the second succeeds
abbrev second_succeeds : ℕ → Attempt
second_succeeds n = record {
  cancelled_before = false;
  cancelled_waiting = false;
  cancelled_after = false;
  run = elim n [ zero ↦ run_failed "timeout" | suc m ↦ ran "done" 0 ];
}

abbrev say_why : RunError → String
say_why e = "failed"

abbrev nothing_else : State × RunningTasks → State × RunningTasks
nothing_else x = x

abbrev busy : State
busy = record empty_state {
  contexts = one_context;
  tasks = one_task;
  sessions = session_a ∷ [];
  in_flight = ("acme/app", 7) ∷ [];
}

busy_one : OneLive busy.tasks
busy_one = record { one = λ repo n. ground arith }

finalize-frees_example :
    (has_pending_or_running_task "acme/app" 7
        (finalize_task_result with_agents works 9 task_1 (some "timeout") busy).tasks
      ≡ false)
    × (is_locked
          ("acme/app", 7)
          (finalize_task_result with_agents works 9 task_1 (some "timeout") busy).in_flight
        ≡ false)
unfolding get_task get_workflow_context
finalize-frees_example =
    finalize-frees with_agents works 9 task_1 (some "timeout") busy task_1 ends_saved refl busy_one
      refl refl refl refl (λ e. cc)

-- the sample task has no result
finalize-undelivered_example :
    ((finalize_task_result with_agents works 9 task_1 none busy).contexts
      ≡ (finalize_task_result with_agents works 9 task_1 (some "timeout") busy).contexts)
    × ((finalize_task_result with_agents works 9 task_1 none busy).sessions
        ≡ (finalize_task_result with_agents works 9 task_1 (some "timeout") busy).sessions)
    × ((finalize_task_result with_agents works 9 task_1 none busy).in_flight
        ≡ (finalize_task_result with_agents works 9 task_1 (some "timeout") busy).in_flight)
unfolding write_back_to_gitea
finalize-undelivered_example =
    finalize-undelivered with_agents works 9 task_1 busy no_result "timeout" refl

undisturbed : Undisturbed second_succeeds
undisturbed = record { before = λ n. refl; waiting = λ n. refl; after = λ n. refl }

run_attempts-fails_example :
    has_failed (run_attempts second_succeeds 1 task_1).0 ≡ not (one_succeeds second_succeeds 1 0)
run_attempts-fails_example = run_attempts-fails second_succeeds 1 task_1 undisturbed

execute-frees_example :
    IsFree "acme/app" 7
      (execute with_agents works 9 1 second_succeeds say_why nothing_else task_1 busy []).0
unfolding get_task get_workflow_context update_task_status register_running unregister_running
execute-frees_example =
    execute-frees with_agents works 9 1 second_succeeds say_why nothing_else task_1 task_1 analyst
      busy [] refl refl refl ends_saved refl busy_one refl refl refl refl (λ e. cc)
