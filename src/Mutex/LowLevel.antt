-- ===== src/Mutex/LowLevel.antt =====
-- source/lowlevellock.h and source/lowlevellock.S, as one call sees them: the other threads act
-- where the call waits. (The accesses of several threads, interleaved, are in Futex.)
use sync_perf.Base.{ℕ, ◌+◌, List, [], ◌∷◌, ◌==◌, if◌then◌else◌}
use sync_perf.Mutex.State.{PMutex, Call, Outcome, done, blocked, set_lock}

-- mutex_lock.c is compiled twice: as it stands, and with NO_INCR by pthread_mutex_cond_lock.c.
pub data Variant : Type 0 where
  normal cond_variant : Variant

-- LLL_LOCK_INITIALIZER_LOCKED or LLL_LOCK_INITIALIZER_WAITERS
abbrev pub taken : Variant → ℕ
taken normal = 1
taken cond_variant = 2

-- `__lll_lock_wait`: sleep while the word is 2, then exchange it for 2; take the lock if it was 0.
unfoldable pub lock_wait : List (PMutex → PMutex) → Call → Outcome Call
lock_wait [] c = blocked
lock_wait (f ∷ fs) c =
    let m = f c.mutex in
    let c' = record c { mutex = record m { lock = 2 }; others = fs } in
    let again = lock_wait fs c' in if m.lock == 0 then done c' else again

-- LLL_MUTEX_LOCK: `lll_lock` or `lll_cond_lock`.
unfoldable pub lll_mutex_lock : Variant → Call → Outcome Call
unfolding lock_wait
lll_mutex_lock v c =
    if c.mutex.lock == 0 then done (set_lock (taken v) c) else lock_wait c.others (set_lock 2 c)

-- LLL_MUTEX_TRYLOCK: the word before, and the state after the compare-exchange.
abbrev pub lll_mutex_trylock : Variant → Call → ℕ × Call
lll_mutex_trylock v c = (c.mutex.lock, if c.mutex.lock == 0 then set_lock (taken v) c else c)

-- `lll_unlock`: decrement; unless that gives 0, store 0 and wake one waiter.
abbrev pub lll_unlock : Call → Call
lll_unlock c =
    if c.mutex.lock == 1 then set_lock 0 c else record (set_lock 0 c) { wakes = c.wakes + 1 }

-- The other threads run before the next attempt, if they still have something to do.
abbrev pub interfere : Call → Call
interfere c = elim c.others [ [] ↦ c | f ∷ fs ↦ record c { mutex = f c.mutex; others = fs } ]
