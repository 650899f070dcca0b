-- ===== src/Tests.antt =====
-- Runs of the model on small inputs, and the theorems at inputs that meet their hypotheses.
pub mod Samples
pub mod OfWorkflow
pub mod OfPolicy
pub mod OfResolver
pub mod OfStore
pub mod OfDispatcher
pub mod OfExecution
pub mod OfIngress
pub mod OfRestart
pub mod OfAgent
pub mod OfSandbox
pub mod OfCleanup
pub mod OfHub
pub mod OfGitSync
pub mod OfHistory
pub mod OfConfig
