-- ===== src/Mutex/Pairing.antt =====
-- Locks and unlocks of the plain kinds in pairs (source/mutex_lock.c, mutex_trylock.c,
-- mutex_unlock.c).
use sync_perf.Base.{◌<◌, ◌≡◌, arith, if◌then◌else◌, ◌==◌}
use sync_perf.Mutex.State.{PMutex, Kernel, Call, done, ◌>>=◌, set_count, set_lock}
use sync_perf.Mutex.LowLevel.{normal}
use sync_perf.Mutex.Lock.{mutex_lock, own}
use sync_perf.Mutex.Unlock.{mutex_unlock}
use sync_perf.Mutex.Trylock.{do_mutex_trylock}

-- A mutex of a plain kind that no thread holds.
pub record IsFree (m : PMutex) : Type 0 where
  pub is_plain : m.kind < 4
  pub unlocked : m.lock ≡ 0
  pub unowned : m.owner ≡ 0
  pub users : m.nusers < 4294967295

-- The state after a successful lock of a free mutex.
abbrev pub acquired : Call → Call
acquired c = own normal (set_lock 1 (if c.mutex.kind == 1 then set_count 1 c else c))

-- `pthread_mutex_lock` and `pthread_mutex_trylock` do the same to a free mutex of a plain kind:
-- both return 0 at once, with the lock word 1, the calling thread as the owner, one more user,
-- and, in a recursive mutex, a count of 1.
pub lock-eq-trylock :
    (k : Kernel) (c : Call)
    → IsFree c.mutex
    → 0 < c.self.tid
    → (mutex_lock k normal c ≡ done (0, acquired c)) × (do_mutex_trylock k c ≡ done (0, acquired c))
unfolding mutex_lock do_mutex_trylock
lock-eq-trylock k c free pos = (ground arith, ground arith)

-- An unlock of a plain mutex right after its lock wakes nobody and frees it.
unlock-acquired :
    (k : Kernel) (c : Call)
    → IsFree c.mutex
    → c.mutex.count ≡ 0
    → mutex_unlock k (acquired c) ≡ done (0, c)
unfolding mutex_unlock
unlock-acquired k c free empty = ground arith

-- A lock of a free mutex of a plain kind and an unlock after it both return 0, wake nobody, and
-- leave the whole state as it was, where the recursion count was 0 and the thread has a positive
-- identifier.
pub lock-unlock :
    (k : Kernel) (c : Call)
    → IsFree c.mutex
    → c.mutex.count ≡ 0
    → 0 < c.self.tid
    → (mutex_lock k normal c >>= λ r. mutex_unlock k r.1) ≡ done (0, c)
lock-unlock k c free empty pos =
    rw (lock-eq-trylock k c free pos).0 (unlock-acquired k c free empty)
