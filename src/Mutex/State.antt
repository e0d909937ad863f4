-- ===== src/Mutex/State.antt =====
-- The state that a pthread mutex call works on, and how a call can end.
use sync_perf.Base.{ℕ, ◌+◌, ◌-◌, ◌≤◌, ◌≡◌, refl, ap, Bool, List, Option, if◌then◌else◌}
use sync_perf.Manager.Counters.{ThreadMutex}

-- `pthread_mutex_t.__data`
pub record PMutex : Type 0 where
  pub lock : ℕ  -- int, as its bit pattern
  pub count : ℕ  -- unsigned int
  pub owner : ℕ
  pub nusers : ℕ  -- unsigned int
  pub kind : ℕ
  pub spins : ℕ

abbrev pub zeroed : PMutex
zeroed = record { lock = 0; count = 0; owner = 0; nusers = 0; kind = 0; spins = 0 }

-- `struct priority_protection_data`; `priomap` is indexed from the lowest priority.
pub record Tpp : Type 0 where
  pub priomax : ℕ
  pub priomap : ℕ → ℕ

-- What the calls use of the descriptor of the calling thread (`THREAD_SELF`).
pub record Self : Type 0 where
  pub tid : ℕ
  pub tpp : Option Tpp
  pub sched_set : Bool  -- ATTR_FLAG_SCHED_SET
  pub policy_set : Bool  -- ATTR_FLAG_POLICY_SET
  pub sched_priority : ℕ
  pub schedpolicy : ℕ
  pub list_op_pending : Bool  -- `robust_head.list_op_pending` names this mutex
  pub enqueued : ℕ  -- how often this mutex stands on the thread's robust list

-- The operating system, which the calls rely on and do not implement. A result `none` is a
-- failure. The lowest SCHED_FIFO priority is at least 1, as Linux and POSIX have it.
pub record Kernel : Type 0 where
  pub priority_min : ℕ
  pub priority_max : ℕ
  pub getparam : ℕ → Option ℕ
  pub getscheduler : ℕ → Option ℕ
  pub setscheduler : ℕ → ℕ → ℕ → Bool
  pub errno : ℕ
  pub calloc : Bool  -- memory for a `Tpp` is there
  pub lock_pi : ℕ → ℕ → ℕ × ℕ  -- thread and word to error (0 if none) and word
  pub trylock_pi : ℕ → ℕ → ℕ × ℕ
  pub unlock_pi : ℕ → ℕ → ℕ
  pub min_pos : 1 ≤ priority_min
  pub min-le-max : priority_min ≤ priority_max

-- One call on one mutex by one thread. `others` says what the other threads do to the mutex, one
-- element for each point at which the call waits or tries again. `stat` are the counters of the
-- calling thread for the mutex; `tsc` gives the readings of the time-stamp counter in turn.
pub record Call : Type 0 where
  pub mutex : PMutex
  pub stat : ThreadMutex
  pub self : Self
  pub others : List (PMutex → PMutex)
  pub tsc : ℕ → ℕ
  pub readings : ℕ
  pub wakes : ℕ  -- calls of FUTEX_WAKE
  pub conflicts : ℕ  -- totalConflicts

-- `blocked`: the call still waits when the other threads have done all that `others` says.
-- `hung`: it spins for ever by intent. `aborted`: an assertion has failed. `undefined`: control
-- reaches the end of a function that should return a value, or a word that is no pointer is followed.
pub data Outcome {ℓ} (A : Type ℓ) : Type ℓ where
  done : A → Outcome A
  blocked hung aborted undefined : Outcome A

infixl 5 ◌>>=◌
abbrev pub ◌>>=◌ {ℓ κ} : {A : Type ℓ} {B : Type κ} → Outcome A → (A → Outcome B) → Outcome B
done a >>= f = f a
blocked >>= f = blocked
hung >>= f = hung
aborted >>= f = aborted
undefined >>= f = undefined

pub done-injective {ℓ} : {A : Type ℓ} {a b : A} → done a ≡ done b → a ≡ b
done-injective {A} {a} {b} e = ap (returned a) e
  where
    returned : A → Outcome A → A
    returned d (done x) = x
    returned d _ = d

-- Inversion of a chain that returns.
pub >>=-eq-done {ℓ κ} :
    {A : Type ℓ} {B : Type κ} (m : Outcome A) (f : A → Outcome B) {b : B}
    → (m >>= f) ≡ done b
    → (a : A) × (m ≡ done a) × (f a ≡ done b)
>>=-eq-done (done a) f h = (a, refl, h)
>>=-eq-done blocked f h = cc
>>=-eq-done hung f h = cc
>>=-eq-done aborted f h = cc
>>=-eq-done undefined f h = cc

abbrev pub assert {ℓ} : {A : Type ℓ} → Bool → A → Outcome A
assert b a = if b then done a else aborted

-- How a case of a `switch` ends: a `return`, or a `break` to the code behind the `switch`.
pub data Exit : Type 0 where
  leave : (code : ℕ) → Call → Exit
  proceed : Call → Exit

abbrev pub set_mutex : Call → PMutex → Call
set_mutex c m = record c { mutex = m }

abbrev pub set_lock : ℕ → Call → Call
set_lock l c = record c { mutex = record (c.mutex) { lock = l } }

abbrev pub set_count : ℕ → Call → Call
set_count n c = record c { mutex = record (c.mutex) { count = n } }

abbrev pub set_owner : ℕ → Call → Call
set_owner o c = record c { mutex = record (c.mutex) { owner = o } }

abbrev pub set_nusers : ℕ → Call → Call
set_nusers n c = record c { mutex = record (c.mutex) { nusers = n } }

abbrev pub set_spins : ℕ → Call → Call
set_spins n c = record c { mutex = record (c.mutex) { spins = n } }

-- THREAD_SETMEM (THREAD_SELF, robust_head.list_op_pending, …)
abbrev pub set_pending : Bool → Call → Call
set_pending b c = record c { self = record (c.self) { list_op_pending = b } }

-- ENQUEUE_MUTEX and ENQUEUE_MUTEX_PI
abbrev pub enqueue : Call → Call
enqueue c = record c { self = record (c.self) { enqueued = c.self.enqueued + 1 } }

-- DEQUEUE_MUTEX
abbrev pub dequeue : Call → Call
dequeue c = record c { self = record (c.self) { enqueued = c.self.enqueued - 1 } }
