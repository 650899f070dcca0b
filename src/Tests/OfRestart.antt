-- ===== src/Tests/OfRestart.antt =====
-- Restarts, cancellations and the serial queue: internal/dispatcher/dispatcher.go and executor.go.
use matea.Base.{true, false, [], ◌∷◌, ◌≡◌, refl, inr, arith, any, select, map}
use matea.Store.Types.{Task}
use matea.Store.Handles.{HubHandle, HubStatus}
use matea.Dispatcher.State.{State}
use matea.Dispatcher.Execution.Ends.{IsFree}
use matea.Dispatcher.Restart.{Restart, start}
use matea.Dispatcher.Restart.Settles.{settled, no_restart_faults, start-settles}
use matea.Dispatcher.Cancels.{unregister_running, RunningTask, runs_for, reset_issue_and_tasks}
use matea.Dispatcher.Cancels.Frees.{loud, reset_issue_and_tasks-frees}
use matea.Store.Tasks.{Tasks, has_running_task_for_agent}
use matea.Dispatcher.Serial.{try_acquire_agent_slot}
use matea.Dispatcher.Serial.Exclusive.{Turn, Turns, IsExclusive, Turns-IsExclusive}
use matea.Tests.Samples.{empty_state, one_context, one_task, task_1}

abbrev task_2 : Task
task_2 = record task_1 { id = 2; issue_id = 8 }

abbrev handle_2 : HubHandle
handle_2 = record {
  task_id = 2;
  backend = "hermes";
  remote_id = "r";
  idempotency_key = "k";
  status = HubStatus.running;
  draft_branch = [];
  base_branch = [];
  base_head = [];
  anchor_head = [];
  deploy_key_id = 0;
  created_at = 3;
  updated_at = 3;
}

-- two tasks ran, the second of them on a hub
abbrev stopped : Restart
stopped = record {
  tasks = record { rows = task_1 ∷ task_2 ∷ []; next_id = 3 };
  channel = [];
  handles = handle_2 ∷ [];
}

start-settles_example :
    (start 9 4 no_restart_faults stopped).1.tasks.rows
    ≡ map (settled 9 stopped.handles) stopped.tasks.rows
start-settles_example = start-settles 9 4 stopped (((λ e. omega (arith, e)), tt), (tt, tt))

abbrev running_1 : RunningTask
running_1 = record { task_id = 1; repo = "acme/app"; issue_id = 7; external = false }

abbrev locked_state : State
locked_state = record empty_state {
  contexts = one_context;
  tasks = one_task;
  in_flight = ("acme/app", 7) ∷ [];
}

reset_issue_and_tasks-frees_example :
    IsFree "acme/app" 7 (reset_issue_and_tasks false 9 "acme/app" 7 locked_state (running_1 ∷ [])).1
    × (any
          (loud "acme/app" 7)
          (reset_issue_and_tasks false 9 "acme/app" 7 locked_state (running_1 ∷ [])).2
        ≡ false)
    × (select
          (runs_for "acme/app" 8)
          (reset_issue_and_tasks false 9 "acme/app" 7 locked_state (running_1 ∷ [])).2
        ≡ select (runs_for "acme/app" 8) (running_1 ∷ []))
    × ((unregister_running 1
          (reset_issue_and_tasks false 9 "acme/app" 7 locked_state (running_1 ∷ [])).2).0
        ≡ true)
reset_issue_and_tasks-frees_example =
    reset_issue_and_tasks-frees 9 "acme/app" 7 locked_state (running_1 ∷ []) "acme/app" 8 1
      (inr (λ e. omega (arith, e)))

abbrev no_tasks : Tasks
no_tasks = record { rows = []; next_id = 1 }

-- one worker takes the first task, and another defers the second, which is of the same agent
taken_then_deferred :
    Turns (record { busy = []; held = [] }) (record { busy = 1 ∷ []; held = task_1 ∷ [] })
unfolding try_acquire_agent_slot has_running_task_for_agent
taken_then_deferred =
    Turns.next
      (Turns.next Turns.here
        (Turn.takes (record { busy = []; held = [] }) false task_1 no_tasks (1 ∷ []) refl))
      (Turn.defers (record { busy = 1 ∷ []; held = task_1 ∷ [] }) false task_2 no_tasks (1 ∷ [])
        refl)

Turns-IsExclusive_example : IsExclusive (record { busy = 1 ∷ []; held = task_1 ∷ [] })
Turns-IsExclusive_example = Turns-IsExclusive taken_then_deferred
