-- ===== src/Mutex.antt =====
-- The pthread mutex calls that the library intercepts: source/mutex_init.c, mutex_lock.c,
-- mutex_trylock.c, mutex_unlock.c, mutex_destroy.c and tpp.c, with source/pthreadP.h.
pub mod Kinds
pub mod State
pub mod LowLevel
pub mod Priority
pub mod Init
pub mod Lock
pub mod Unlock
pub mod Trylock
pub mod Waits
pub mod Ensures
pub mod Accesses
pub mod Acquire
pub mod Pairing
pub mod Refusal
pub mod Nesting
pub mod Statistics
pub mod Gaps
pub mod Ceilings
pub mod Restore
pub mod Protected
pub mod Failures
