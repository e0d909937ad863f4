-- ===== src/Threads.antt =====
-- source/xthread.h and the calls of source/libdefault.cpp: the table of threads and the levels
-- (phases) of the program's run.
pub mod Stack
pub mod Offset
pub mod Table
pub mod Phases
pub mod Calls
pub mod Times
pub mod Creation
pub mod Ranges
