-- ===== src/Manager.antt =====
-- source/mutex_manager.cpp, source/mutex_manager.h and source/recordentries.hh: the entry that
-- stands behind each mutex of the program, and the counters of each thread for it.
pub mod Counters
pub mod Cells
pub mod Contexts
pub mod Backtrace
pub mod Entries
pub mod Install
