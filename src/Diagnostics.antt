-- ===== src/Diagnostics.antt =====
-- The built-in diagnostics, after `app/modules/diagnostics`.
pub mod Builders
pub mod Http
pub mod Service
