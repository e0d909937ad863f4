-- ===== src/Examples/Defects.antt =====
-- Calls on the kinds with robust, shared or inherit bits.
use sync_perf.Mutex.State.{Call, set_mutex, zeroed}
use sync_perf.Mutex.Init.{attributes, mutex_init}
use sync_perf.Examples.Data.{alone}

abbrev shared : Call
shared = set_mutex (alone zeroed) (mutex_init zeroed (attributes 0 0 0 0 1)).1
