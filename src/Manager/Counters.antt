-- ===== src/Manager/Counters.antt =====
-- source/mutex_manager.cpp: the counters of each thread for each mutex, in one flat array.
use sync_perf.Base.{
  ℕ, ◌+◌, ◌*◌, ◌^◌, ◌<◌, ◌≡◌, ◌&&◌, ◌==◌, if◌then◌else◌, arith, update, inc32, u64, u32,
}
use sync_perf.Clock.{TimeInfo, get_elapsed_cycle}

-- `thread_mutex_t`. The two times are sums of cycles: a value in milliseconds is this number
-- divided by `cpu_freq`.
pub record ThreadMutex : Type 0 where
  pub access_count : ℕ  -- UINT32
  pub fail_count : ℕ  -- UINT32
  pub cond_waits : ℕ  -- UINT32
  pub trylock_fail_count : ℕ  -- UINT32
  pub cond_futex_wait : ℕ
  pub futex_wait : ℕ

abbrev pub max_sync_entries : ℕ
max_sync_entries = 1000000

abbrev pub max_threads : ℕ
max_threads = 2048

-- `thread_sync_data`
abbrev pub SyncData : Type 0
SyncData = ℕ → ThreadMutex

-- The product is computed in 32 bits, the sum as a `size_t`.
unfoldable pub data_index : ℕ → ℕ → ℕ
data_index mut_index thd_index = u64 (u32 (thd_index * max_sync_entries) + mut_index)

unfoldable pub get_thread_mutex_data : SyncData → ℕ → ℕ → ThreadMutex
unfolding data_index
get_thread_mutex_data d mut_index thd_index = d (data_index mut_index thd_index)

-- A write through the pointer that `get_thread_mutex_data` returns.
unfoldable pub modify_data : (ThreadMutex → ThreadMutex) → SyncData → ℕ → ℕ → SyncData
unfolding data_index
modify_data f d mut_index thd_index = let i = data_index mut_index thd_index in update d i (f (d i))

abbrev pub count_access : ThreadMutex → ThreadMutex
count_access t = record t { access_count = inc32 t.access_count }

abbrev pub count_fail : ThreadMutex → ThreadMutex
count_fail t = record t { fail_count = inc32 t.fail_count }

abbrev pub count_cond_wait : ThreadMutex → ThreadMutex
count_cond_wait t = record t { cond_waits = inc32 t.cond_waits }

abbrev pub count_trylock_fail : ThreadMutex → ThreadMutex
count_trylock_fail t = record t {
  fail_count = inc32 t.fail_count;
  trylock_fail_count = inc32 t.trylock_fail_count;
}

-- `now` is the reading that `get_elapsed2ms` takes.
abbrev pub add_cond_cycles : TimeInfo → TimeInfo → ThreadMutex → ThreadMutex
add_cond_cycles st now t = record t {
  cond_futex_wait = t.cond_futex_wait + get_elapsed_cycle st now;
}

abbrev pub add_futex_cycles : TimeInfo → TimeInfo → ThreadMutex → ThreadMutex
add_futex_cycles st now t = record t { futex_wait = t.futex_wait + get_elapsed_cycle st now }

unfoldable pub inc_access_count : SyncData → ℕ → ℕ → SyncData
unfolding modify_data
inc_access_count = modify_data count_access

unfoldable pub inc_fail_count : SyncData → ℕ → ℕ → SyncData
unfolding modify_data
inc_fail_count = modify_data count_fail

unfoldable pub inc_cond_wait_count : SyncData → ℕ → ℕ → SyncData
unfolding modify_data
inc_cond_wait_count = modify_data count_cond_wait

unfoldable pub inc_trylock_fail_count : SyncData → ℕ → ℕ → SyncData
unfolding modify_data
inc_trylock_fail_count = modify_data count_trylock_fail

unfoldable pub add_cond_wait_time : TimeInfo → TimeInfo → SyncData → ℕ → ℕ → SyncData
unfolding modify_data
add_cond_wait_time st now = modify_data (add_cond_cycles st now)

unfoldable pub add_futex_wait : TimeInfo → TimeInfo → SyncData → ℕ → ℕ → SyncData
unfolding modify_data
add_futex_wait st now = modify_data (add_futex_cycles st now)

-- Within the limits the cell of a mutex and a thread lies inside the mapped array, of
-- MAX_SYNC_ENTRIES * MAX_THREADS cells, and the 32-bit product does not overflow.
pub data_index_bounds :
    (m t : ℕ)
    → m < max_sync_entries
    → t < max_threads
    → (data_index m t ≡ t * max_sync_entries + m)
      × (data_index m t < max_sync_entries * max_threads)
      × (t * max_sync_entries < 2 ^ 31)
unfolding data_index
data_index_bounds m t hm ht = omega arith

data_index_injective :
    (m t m' t' : ℕ)
    → m < max_sync_entries
    → m' < max_sync_entries
    → t < max_threads
    → t' < max_threads
    → data_index m t ≡ data_index m' t'
    → (m ≡ m') × (t ≡ t')
unfolding data_index
data_index_injective m t m' t' hm hm' ht ht' e = omega arith

-- Every update of the counters, seen through `get_thread_mutex_data`, changes the cell of its own
-- mutex and thread by `f` and no other cell: the flat array is a table of mutexes and threads.
pub get-modify_data :
    (f : ThreadMutex → ThreadMutex) (d : SyncData) (m t m' t' : ℕ)
    → m < max_sync_entries
    → m' < max_sync_entries
    → t < max_threads
    → t' < max_threads
    → get_thread_mutex_data (modify_data f d m t) m' t' ≡ (
        if (m == m') && (t == t')
        then f (get_thread_mutex_data d m t)
        else get_thread_mutex_data d m' t')
unfolding get_thread_mutex_data modify_data
get-modify_data f d m t m' t' hm hm' ht ht' =
    ground (arith, data_index_injective m t m' t' hm hm' ht ht')
