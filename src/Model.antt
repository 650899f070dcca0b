-- ===== src/Model.antt =====
-- internal/llm: the clients of language models.
pub mod RateLimit
