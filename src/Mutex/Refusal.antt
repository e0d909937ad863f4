-- ===== src/Mutex/Refusal.antt =====
-- The calls on a mutex that fail (source/mutex_lock.c, mutex_trylock.c).
use sync_perf.Base.{ℕ, if◌then◌else◌, ◌==◌, ◌+◌, ◌≡◌, ◌≢◌, ◌⊎◌}
use sync_perf.Mutex.Kinds.{eagain, ebusy}
use sync_perf.Mutex.State.{Call}

-- The mutex is the caller's: it was free, or recursive and the caller's already.
pub record IsGot (c : Call) (r : ℕ × Call) : Type 0 where
  pub code : r.0 ≡ 0
  pub owned : r.1.mutex.owner ≡ c.self.tid
  pub locked : r.1.mutex.lock ≢ 0
  pub was :
      ((c.mutex.lock ≡ 0) × (r.1.mutex.count ≡ (if c.mutex.kind == 1 then 1 else c.mutex.count)))
      ⊎ ((c.mutex.owner ≡ c.self.tid) × (c.mutex.kind ≡ 1) × (r.1.mutex.count ≡ c.mutex.count + 1))

-- EBUSY for a mutex that is held, and not recursive and the caller's.
pub record IsBusy (c : Call) (r : ℕ × Call) : Type 0 where
  pub code : r.0 ≡ ebusy
  pub kept : r.1 ≡ c
  pub locked : c.mutex.lock ≢ 0
  pub foreign : (c.mutex.owner ≢ c.self.tid) ⊎ (c.mutex.kind ≢ 1)

-- EAGAIN for the caller's recursive mutex whose count is all ones.
pub record IsFull (c : Call) (r : ℕ × Call) : Type 0 where
  pub code : r.0 ≡ eagain
  pub kept : r.1 ≡ c
  pub own : c.mutex.owner ≡ c.self.tid
  pub is_recursive : c.mutex.kind ≡ 1
  pub full : c.mutex.count ≡ 4294967295
