-- ===== src/Actions.antt =====
-- The actions that an administrator defines, after `app/modules/actions`.
pub mod Schema
pub mod Shell
pub mod Runs
pub mod Execute
pub mod Pages
mod Examples
