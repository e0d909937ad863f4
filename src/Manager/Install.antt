-- ===== src/Manager/Install.antt =====
-- source/mutex_manager.cpp: how the first threads that lock a mutex give it its entry.
pub mod Protocol
pub mod Invariant
pub mod Safety
