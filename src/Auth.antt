-- ===== src/Auth.antt =====
-- `app/modules/auth/`: who may log in, how often, and what a request needs to be let through.
pub mod Throttle
pub mod Service
pub mod Login
