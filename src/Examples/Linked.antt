-- ===== src/Examples/Linked.antt =====
-- One program mutex, locked by one thread for the first time.
use sync_perf.Base.{ℕ, ◌≡◌, ◌<◌, refl, arith, some, none, [], u32, total}
use sync_perf.Manager.Counters.{get_thread_mutex_data}
use sync_perf.Mutex.State.{done, blocked, zeroed}
use sync_perf.Intercept.World.{World, Caller, prologue, pthread_mutex_lock}
use sync_perf.Intercept.Waiting.{begin_wait, end_wait}
use sync_perf.Intercept.Steps.{Reach, IsFresh, start, next, lock, sleep, wake, entry_unshared}
use sync_perf.Report.Totals.{sum_threads}
use sync_perf.Intercept.Ledger.{calls, Within, sum_threads-calls}
use sync_perf.Intercept.Initialisers.{static_kind_lost}
use sync_perf.Examples.Data.{linux, alone, no_stat}

-- Every mutex of the program has a recursive static initialiser.
abbrev fresh : World
fresh = record {
  users = λ _. record { pointer = none; kind = 1 };
  entries = λ _. record { mutex = zeroed; contexts = []; entry_index = 0 };
  pool = record { mapped = 4096; total = 10; cur = 0 };
  counters = λ _. no_stat;
  total_locks = 0;
  total_conflicts = 0;
}

abbrev caller : Caller
caller = record {
  index = 2;
  return_address = 4096;
  esp_offset = 8;
  stack = [];
  call = alone zeroed;
}

fresh-IsFresh : IsFresh fresh
fresh-IsFresh = record { unlinked = λ _. refl; unused = refl; table = omega arith }

locked_once :
    (w : World) × (pthread_mutex_lock linux caller 5 fresh ≡ done (0, w))
    × ((w.users 5).pointer ≡ some 0)
unfolding pthread_mutex_lock
locked_once = (_, refl, refl)

entry_unshared_example :
    (◌≡◌ {A = ℕ} 5 5) × (0 < locked_once.0.pool.cur) × ((locked_once.0.entries 0).entry_index ≡ 0)
entry_unshared_example =
    entry_unshared linux fresh locked_once.0 5 5 0 fresh-IsFresh
      (next start (lock caller 5 0 locked_once.1)) locked_once.2 locked_once.2

behind_prologue : (w : World) × (prologue caller 5 fresh ≡ done (0, w))
unfolding prologue
behind_prologue = (_, refl)

static_kind_lost_example :
    (w' : World) × (pthread_mutex_lock linux caller 5 fresh ≡ done (0, w'))
    × (pthread_mutex_lock linux caller 5 w' ≡ blocked)
static_kind_lost_example =
    static_kind_lost linux caller 5 fresh refl (omega arith) refl (omega arith) refl (omega arith)

-- The thread waits on a condition variable, sleeps twice and owns the mutex again.
waiting_for_signal : (w : World) × (begin_wait linux caller 5 locked_once.0 ≡ done (0, w))
unfolding begin_wait locked_once
waiting_for_signal = (_, refl)

signalled_back : (w : World) × (end_wait linux caller 2 5 waiting_for_signal.0 ≡ done (0, w))
unfolding end_wait waiting_for_signal begin_wait locked_once
signalled_back = (_, refl)

one_call : Reach linux fresh signalled_back.0
one_call =
    next (next (next start (lock caller 5 0 locked_once.1)) (sleep caller 5 0 waiting_for_signal.1))
      (wake caller 2 5 0 signalled_back.1)

sum_threads-calls_example :
    (sum_threads signalled_back.0.counters 0 4).access_count
    ≡ u32 (total (λ n. n) 4 (λ t. calls one_call 0 t))
unfolding Within get_thread_mutex_data one_call locked_once waiting_for_signal signalled_back
sum_threads-calls_example =
    sum_threads-calls linux fresh signalled_back.0 one_call 0 4 fresh-IsFresh (λ i t hi ht. refl)
      (((tt, omega arith), omega arith), omega arith) (omega arith) (omega arith)
