-- ===== src/Workflow.antt =====
-- internal/workflow: the state machine of an issue, the gates, and the resolver of events.
pub mod Manager
pub mod Policy
pub mod TaskTypes
pub mod Comments
pub mod Sessions
pub mod Cleanup
pub mod Resolver
