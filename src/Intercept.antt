-- ===== src/Intercept.antt =====
-- The intercepted calls, from the program's mutex to the entry that stands for it
-- (source/mutex_lock.c, mutex_trylock.c, mutex_unlock.c, mutex_init.c, mutex_destroy.c and
-- mutex_manager.cpp), and the waits on condition variables between them (source/cond_wait.c).
pub mod World
pub mod Linking
pub mod Waiting
pub mod Steps
pub mod Counting
pub mod Accesses
pub mod Effects
pub mod Sleeps
pub mod Ledger
pub mod Initialisers
