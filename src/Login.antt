-- ===== src/Login.antt =====
-- The login package of the HTTP API, backend/core/root/api/login.
pub mod RateLimit
pub mod Rules
pub mod Users
pub mod Session
pub mod Forged
pub mod Address
pub mod Tokens
