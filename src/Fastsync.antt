-- ===== src/Fastsync.antt =====
-- src/fastsync: the fast synchronization primitives.
pub mod Atomic
pub mod Futex
pub mod Mutex
pub mod Barrier
pub mod Cond
