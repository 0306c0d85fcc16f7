-- ===== src/Auth.antt =====
-- app/auth.py: who may use the program.
pub mod RateLimit
pub mod Session
pub mod Middleware
