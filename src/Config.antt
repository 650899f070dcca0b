-- ===== src/Config.antt =====
-- internal/config: the settings by their keys, and their changes at run time.
pub mod Schema
pub mod Values
pub mod Keys
pub mod Manager
