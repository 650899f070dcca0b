-- ===== src/Store.antt =====
-- internal/store: the tables that the workflow and the dispatcher share.
pub mod Memories
pub mod Types
pub mod Contexts
pub mod Tasks
pub mod Sessions
pub mod Handles
