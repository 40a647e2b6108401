-- ===== src/Tests.antt =====
-- The theorems at concrete inputs.
mod Login
mod Queue
mod Commands
mod Tables
mod Workers
mod Interactions
mod Loggers
mod Pools
mod Exports
mod Rings
mod Addresses
mod Stores
