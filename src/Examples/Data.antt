-- ===== src/Examples/Data.antt =====
-- A kernel, a thread and mutexes for the examples.
use sync_perf.Base.{ℕ, true, false, none, some, [], ◌∷◌, ◌*◌, arith}
use sync_perf.Manager.Counters.{ThreadMutex}
use sync_perf.Mutex.State.{PMutex, Self, Kernel, Call, zeroed}

abbrev pub linux : Kernel
linux = record {
  priority_min = 1;
  priority_max = 99;
  getparam = λ _. some 0;
  getscheduler = λ _. some 0;
  setscheduler = λ _ _ _. true;
  errno = 1;
  calloc = true;
  lock_pi = λ tid word. (0, tid);
  trylock_pi = λ tid word. (0, tid);
  unlock_pi = λ tid word. 0;
  min_pos = omega arith;
  min-le-max = omega arith;
}

abbrev pub no_stat : ThreadMutex
no_stat = record {
  access_count = 0;
  fail_count = 0;
  cond_waits = 0;
  trylock_fail_count = 0;
  cond_futex_wait = 0;
  futex_wait = 0;
}

-- Thread 7.
abbrev pub seven : Self
seven = record {
  tid = 7;
  tpp = none;
  sched_set = false;
  policy_set = false;
  sched_priority = 0;
  schedpolicy = 0;
  list_op_pending = false;
  enqueued = 0;
}

-- A call of thread 7, with no other thread in the way.
abbrev pub alone : PMutex → Call
alone m = record {
  mutex = m;
  stat = no_stat;
  self = seven;
  others = [];
  tsc = λ n. n * 100;
  readings = 0;
  wakes = 0;
  conflicts = 0;
}

abbrev pub of_kind : ℕ → PMutex
of_kind k = record zeroed { kind = k }

-- Held `count` times by thread 7.
abbrev pub held_by_seven : ℕ → ℕ → PMutex
held_by_seven k count = record {
  lock = 1;
  count = count;
  owner = 7;
  nusers = 1;
  kind = k;
  spins = 0;
}

-- Held by thread 8, which unlocks while thread 7 waits.
abbrev pub held_by_eight : ℕ → PMutex
held_by_eight k = record { lock = 2; count = 1; owner = 8; nusers = 1; kind = k; spins = 0 }

abbrev pub waits_for_eight : ℕ → Call
waits_for_eight k = record (alone (held_by_eight k)) {
  others = (λ m. record m { lock = 0; owner = 0; nusers = 0 }) ∷ [];
}
