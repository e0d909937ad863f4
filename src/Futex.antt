-- ===== src/Futex.antt =====
-- source/lowlevellock.h and source/lowlevellock.S: the low-level lock as a protocol of threads.
pub mod Protocol
pub mod Invariant
pub mod Safety
pub mod Linear
mod Examples
