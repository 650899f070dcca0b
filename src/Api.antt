-- ===== src/Api.antt =====
-- internal/api: the web interface.
pub mod SetupToken
