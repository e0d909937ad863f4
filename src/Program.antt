-- ===== src/Program.antt =====
-- The start and the end of a run: source/libdefault.cpp, `initializer` and `finalizer`, with
-- source/xrun.h, source/mm.hh and what source/report.h asks of the system.
pub mod Memory
pub mod Start
pub mod Finish
pub mod Texts
pub mod Whole
