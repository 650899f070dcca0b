-- ===== src/Tests/OfDispatcher.antt =====
-- internal/dispatcher.
use matea.Base.{codes, false, [], ◌∷◌, arith}
use matea.Store.Types.{Role, fix_bug}
use matea.Store.Contexts.Laws.{IsValid}
use matea.Store.Tasks.Live.{OneLive}
use matea.Workflow.Resolver.{task_result}
use matea.Dispatcher.Keys.{effective_issue_key}
use matea.Dispatcher.State.{State, no_faults}
use matea.Dispatcher.Pipeline.{handle_event_v2, start_task}
use matea.Dispatcher.Pipeline.Outcome.{Outcome, start_task_outcome}
use matea.Dispatcher.Pipeline.Safety.{handle_event_v2-OneLive}
use matea.Tests.Samples.{
  settings, registry, assigned_to, empty_state, coder_agent, one_context, one_task, session_a,
}

start_task_outcome_example :
    Outcome
      ("acme/app", 7)
      empty_state
      (start_task settings no_faults 5 "s9" ""
        (assigned_to (codes "matea-coder"))
        (task_result coder_agent fix_bug Role.coder 7 0 false)
        coder_agent
        empty_state)
unfolding effective_issue_key
start_task_outcome_example =
    start_task_outcome settings no_faults 5 "s9" "" (assigned_to (codes "matea-coder"))
      (task_result coder_agent fix_bug Role.coder 7 0 false) coder_agent empty_state

none_live : OneLive empty_state.tasks
none_live = record { one = λ repo n. omega arith }

handle_event_v2-OneLive_example :
    OneLive
      (handle_event_v2 settings no_faults 5 "s9" "" registry
        (assigned_to (codes "matea-coder"))
        empty_state).1.tasks
handle_event_v2-OneLive_example =
    handle_event_v2-OneLive settings no_faults 5 "s9" "" registry
      (assigned_to (codes "matea-coder")) empty_state none_live

abbrev busy : State
busy = record empty_state {
  contexts = one_context;
  tasks = one_task;
  sessions = session_a ∷ [];
  in_flight = ("acme/app", 7) ∷ [];
}

busy-IsValid : IsValid busy.contexts
busy-IsValid = record { below = (omega arith, tt); distinct = (tt, tt) }
