-- ===== src/Dispatcher/Queue.antt =====
-- TaskQueue of internal/dispatcher/queue.go: a bounded channel over the table of tasks. Enqueue is a step
-- of the pipeline. A send never blocks; a task that finds no room stays pending in the table.
pub mod Room
use matea.Base.{ℕ, List, [], ◌∷◌, ◌++◌, Bool, ltb, length, if◌then◌else◌}
use matea.Store.Types.{Task}
use matea.Store.Tasks.{Tasks, list_pending_tasks, reset_stale_running_tasks_except_hub}

-- the channel takes a task only while it has room (push)
abbrev pub offer : ℕ → Task → List Task → List Task
offer size task channel = if ltb (length channel) size then channel ++ task ∷ [] else channel

unfoldable pub offer_all : ℕ → List Task → List Task → List Task
offer_all size [] channel = channel
offer_all size (task ∷ tasks) channel = offer_all size tasks (offer size task channel)

-- LoadPending and scanPendingTasks, which send what the table lists as pending, sent before or not
unfoldable pub load_pending : ℕ → Tasks → List Task → List Task
unfolding offer_all
load_pending size t channel = offer_all size (list_pending_tasks t) channel

-- One tick of the scanner: pending tasks first, then the stale ones.
unfoldable pub scan : ℕ → ℕ → (ℕ → Bool) → Tasks → List Task → Tasks × List Task
unfolding load_pending
scan size cutoff owns_handle t channel =
    ((reset_stale_running_tasks_except_hub cutoff owns_handle t).0, load_pending size t channel)
