-- ===== src/Report/Totals.antt =====
-- source/report.h, the loops of `print` over the mutexes and the threads.
use sync_perf.Base.{
  ℕ, zero, suc, ◌+◌, ◌*◌, List, [], ◌∷◌, ◌++◌, ltb, if◌then◌else◌, u32, Bool, true, false,
}
use sync_perf.Manager.Counters.{ThreadMutex, SyncData, get_thread_mutex_data}

-- The counters of one mutex, summed over the threads: those of type
-- `unsigned int`. (The code also sums two times, of type double, and never reads the sums.)
pub record Totals : Type 0 where
  pub access_count : ℕ
  pub fail_count : ℕ
  pub cond_wait : ℕ
  pub trylock_fails : ℕ

abbrev pub no_totals : Totals
no_totals = record { access_count = 0; fail_count = 0; cond_wait = 0; trylock_fails = 0 }

abbrev pub add_thread : Totals → ThreadMutex → Totals
add_thread t d = record {
  access_count = u32 (t.access_count + d.access_count);
  fail_count = u32 (t.fail_count + d.fail_count);
  cond_wait = u32 (t.cond_wait + d.cond_waits);
  trylock_fails = u32 (t.trylock_fails + d.trylock_fail_count);
}

-- The loop over the threads, up to the given number.
unfoldable pub sum_threads : SyncData → (entry threads : ℕ) → Totals
unfolding get_thread_mutex_data
sum_threads d entry zero = no_totals
sum_threads d entry (suc n) = add_thread (sum_threads d entry n) (get_thread_mutex_data d entry n)

-- What the report calls high, per hundred and per millisecond.
abbrev pub threshold_conflict : ℕ
threshold_conflict = 5

abbrev pub threshold_frequency : ℕ
threshold_frequency = 1

-- `(100 * total_fail_count) / double (total_access_count) > THRESHOLD_CONFLICT`: the product is an
-- `unsigned int`, and the quotient is compared exactly.
abbrev pub high_conflict : Totals → Bool
high_conflict t = ltb (threshold_conflict * t.access_count) (u32 (100 * t.fail_count))

-- `elapsed_time_for_freq`, at least 1000 milliseconds, in cycles.
abbrev pub elapsed_for_freq : (cpu_freq elapse : ℕ) → ℕ
elapsed_for_freq cpu_freq elapse = if ltb elapse (1000 * cpu_freq) then 1000 * cpu_freq else elapse

-- `total_access_count / elapsed_time_for_freq > THRESHOLD_FREQUENCY`, with the time in cycles and
-- `cpu_freq` cycles to a millisecond.
abbrev pub high_frequency : (cpu_freq elapse : ℕ) → Totals → Bool
high_frequency cpu_freq elapse t =
    ltb (threshold_frequency * elapsed_for_freq cpu_freq elapse) (t.access_count * cpu_freq)

-- `sync_perf_t`, by the entry that it is about and the totals that its rates come from.
pub record SyncPerf : Type 0 where
  pub entry : ℕ
  pub totals : Totals

-- The vectors, each in the order of its `push_back`s, and the number `id` of mutexes in use.
pub record Lists : Type 0 where
  pub high_conflict_high_freq : List SyncPerf
  pub high_conflict_low_freq : List SyncPerf
  pub low_conflict_high_freq : List SyncPerf
  pub id : ℕ

abbrev pub no_lists : Lists
no_lists = record {
  high_conflict_high_freq = [];
  high_conflict_low_freq = [];
  low_conflict_high_freq = [];
  id = 0;
}

abbrev pub classify : (conflict frequency : Bool) → SyncPerf → Lists → Lists
classify true true p l = record l { high_conflict_high_freq = l.high_conflict_high_freq ++ p ∷ [] }
classify true false p l = record l { high_conflict_low_freq = l.high_conflict_low_freq ++ p ∷ [] }
classify false true p l = record l { low_conflict_high_freq = l.low_conflict_high_freq ++ p ∷ [] }
classify false false p l = l

-- What the body of the loop does with the totals of one mutex.
abbrev pub add_entry : (cpu_freq elapse : ℕ) → SyncPerf → Lists → Lists
add_entry cpu_freq elapse p l =
    if ltb 0 p.totals.access_count
    then classify (high_conflict p.totals) (high_frequency cpu_freq elapse p.totals) p
        (record l { id = l.id + 1 })
    else l

-- `print`, up to the output: the loop over the mutexes.
unfoldable pub print :
    (cpu_freq elapse : ℕ) → SyncData → (total_threads total_sync_vars : ℕ) → Lists
unfolding sum_threads
print cpu_freq elapse d threads zero = no_lists
print cpu_freq elapse d threads (suc n) =
    add_entry cpu_freq elapse (record { entry = n; totals = sum_threads d n threads })
      (print cpu_freq elapse d threads n)
