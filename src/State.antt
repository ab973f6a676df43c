-- ===== src/State.antt =====
-- internal/state: the store of ticks and alert cards.
pub mod Memory
pub mod Interface
pub mod Laws
pub mod Prefix
pub mod Nats
pub mod Buckets
pub mod Conflicts
pub mod Registers
pub mod Deletions
