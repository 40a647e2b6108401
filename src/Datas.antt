-- ===== src/Datas.antt =====
-- The containers of backend/core/root/datas that hold no file.
pub mod Set
pub mod AtomicQueue
