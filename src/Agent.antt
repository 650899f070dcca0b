-- ===== src/Agent.antt =====
-- internal/agent: the conversation of an agent with a language model.
pub mod Messages
pub mod Truncate
pub mod Loop
