-- ===== src/Dispatcher/Serial.antt =====
-- The serial queue of an agent in internal/dispatcher/executor.go: with agent_concurrency set to
-- serial_queue, a worker runs a task only while no other worker runs one of the same agent.
pub mod Exclusive
use matea.Base.{
  ℕ, Bool, true, false, not, ◌&&◌, ◌||◌, Option, none, some, List, [], ◌∷◌, ◌++◌, ◌==◌, any, select,
  if◌then◌else◌,
}
use matea.Store.Types.{Task}
use matea.Store.Tasks.{Tasks, has_running_task_for_agent, next_pending_task_for_agent}
use matea.Dispatcher.Queue.{offer}

-- the map agentBusy, as the list of the agents that are marked
abbrev pub Busy : Type 0
Busy = List ℕ

abbrev pub is_busy : ℕ → Busy → Bool
is_busy agent_id busy = any (λ (a : ℕ). a == agent_id) busy

module _ (serial : Bool) where
  -- the Boolean of the result says whether the task may run; `fails` that the query fails
  unfoldable pub try_acquire_agent_slot : Bool → Task → Tasks → Busy → Bool × Busy
  try_acquire_agent_slot fails task t busy =
      if not serial
      then (true, busy)
      else if is_busy task.agent_id busy
          || fails
          || has_running_task_for_agent task.agent_id task.id t
      then (false, busy)
      else (true, task.agent_id ∷ busy)

  unfoldable pub release_agent_slot : ℕ → Busy → Busy
  release_agent_slot agent_id busy =
      if not serial then busy else select (λ (a : ℕ). not (a == agent_id)) busy

  abbrev push_next : ℕ → Option Task → List Task → List Task
  push_next size none channel = channel
  push_next size (some next) channel = offer size next channel

  unfoldable pub kick_next_for_agent : Bool → ℕ → ℕ → Tasks → List Task → List Task
  kick_next_for_agent fails size agent_id t channel =
      if not serial || fails
      then channel
      else push_next size (next_pending_task_for_agent agent_id t) channel
