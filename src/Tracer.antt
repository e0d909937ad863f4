-- ===== src/Tracer.antt =====
-- diagnosis_tool/src/sync_track.cpp: the Pin tool that counts, for each thread, the instructions
-- in critical sections, and for each address the accesses.
pub mod Access
pub mod Callbacks
pub mod Image
pub mod Isolation
pub mod Runs
pub mod Missed
pub mod Sharing
pub mod Totals
