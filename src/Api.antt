-- ===== src/Api.antt =====
-- backend/core/root/api.
pub mod Polls
pub mod Aliases
pub mod Web
