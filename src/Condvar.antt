-- ===== src/Condvar.antt =====
-- source/cond_wait.c: `pthread_cond_wait` and `__condvar_cleanup`.
pub mod Wait
pub mod Order
pub mod Returns
pub mod Relock
pub mod Departure
