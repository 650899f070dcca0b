-- ===== src/Dispatcher.antt =====
-- internal/dispatcher: from an event to a queued task, and from a finished task back to the workflow.
pub mod Keys
pub mod State
pub mod Gates
pub mod Pipeline
pub mod Executor
pub mod Queue
pub mod Execution
pub mod Lifecycle
pub mod Restart
pub mod Cancels
pub mod Serial
pub mod History
