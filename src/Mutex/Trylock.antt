-- ===== src/Mutex/Trylock.antt =====
-- source/mutex_trylock.c: `do_mutex_trylock`. The call never waits, so it runs without interference.
use sync_perf.Base.{
  ℕ, ◌+◌, ◌*◌, Bool, true, false, not, ◌&&◌, none, some, ◌==◌, ltb, if◌then◌else◌, has_bit, inc32,
}
use sync_perf.Mutex.Kinds.{
  eagain, ebusy, einval, edeadlk, eownerdead, enotrecoverable, inconsistent, notrecoverable,
  futex_waiters, futex_owner_died, tid_bits, mutex_type_elision, ceiling_of, Flavor, timed,
  recursive, errorcheck, adaptive, Kind, plain, robust, inherit, protect, elided, elided_recursive,
  other, decode,
}
use sync_perf.Mutex.State.{
  Kernel, Call, Outcome, done, aborted, ◌>>=◌, assert, Exit, leave, proceed, set_lock, set_count,
  set_owner, set_nusers, set_pending, enqueue,
}
use sync_perf.Mutex.LowLevel.{lll_unlock}
use sync_perf.Mutex.Priority.{change_priority, current_priority}
use sync_perf.Mutex.Lock.Plain.{bump_count}
use sync_perf.Mutex.Lock.Inherit.{is_errorcheck, is_recursive, clear_died}
use sync_perf.Mutex.Lock.Protect.{set_self}

-- `return` out of the function.
abbrev pub returned : Exit → ℕ × Call
returned (leave code c) = (code, c)
returned (proceed c) = (0, c)

-- Record the ownership: owner and users.
abbrev pub take : Call → Call
take c = set_nusers (inc32 c.mutex.nusers) (set_owner c.self.tid c)

unfoldable pub trylock_recursive : Call → ℕ × Call
trylock_recursive c =
    if c.mutex.owner == c.self.tid
    then returned (bump_count c)
    else if c.mutex.lock == 0
    then (0, set_count 1 (take (set_lock 1 c)))
    else (ebusy, c)

unfoldable pub trylock_simple : Call → ℕ × Call
trylock_simple c = if c.mutex.lock == 0 then (0, take (set_lock 1 c)) else (ebusy, c)

-- The previous owner died: the word keeps its waiters bit.
abbrev trylock_dead : Call → ℕ × Call
trylock_dead c =
    let word =
      if has_bit futex_waiters c.mutex.lock then c.self.tid + futex_waiters else c.self.tid in
    (
      eownerdead,
      set_pending false (enqueue (set_owner inconsistent (set_count 1 (set_lock word c)))),
    )

-- The word was 0 and holds the thread's id now. `oldval` is 0, so that the test `oldval == id` of
-- the code fails and the word is not given back.
abbrev trylock_robust_got : (oldval : ℕ) → Call → ℕ × Call
trylock_robust_got oldval c =
    if c.mutex.owner == notrecoverable
    then (
      enotrecoverable,
      set_pending false
          (if oldval == c.self.tid then lll_unlock (set_count 0 c) else set_count 0 c),
    )
    else (0, set_count 1 (take (set_pending false (enqueue c))))

-- With no other thread in between, every compare-exchange from the value just read succeeds, and
-- the loop runs once.
unfoldable pub trylock_robust : Flavor → Call → ℕ × Call
trylock_robust f c =
    let c₀ = set_pending true c in
    if has_bit futex_owner_died c.mutex.lock
    then trylock_dead c₀
    else if (tid_bits c.mutex.lock == c.self.tid) && is_errorcheck f
    then (edeadlk, set_pending false c₀)
    else if (tid_bits c.mutex.lock == c.self.tid) && is_recursive f
    then returned (bump_count (set_pending false c₀))
    else if c.mutex.lock == 0
    then trylock_robust_got 0 (set_lock c.self.tid c₀)
    else (ebusy, set_pending false c₀)

abbrev trylock_inherit_dead : Call → ℕ × Call
trylock_inherit_dead c = (
  eownerdead,
  set_pending false
      (enqueue (set_owner inconsistent (set_count 1 (set_lock (clear_died c.mutex.lock) c)))),
)

abbrev trylock_inherit_lost : Kernel → Call → ℕ × Call
trylock_inherit_lost k c = (
  enotrecoverable,
  set_pending false (set_lock (k.unlock_pi c.self.tid c.mutex.lock) (set_count 0 c)),
)

-- Behind the acquisition.
abbrev pub trylock_inherit_got : Kernel → Bool → (oldval : ℕ) → Call → ℕ × Call
trylock_inherit_got k is_robust oldval c =
    if has_bit futex_owner_died oldval
    then trylock_inherit_dead c
    else if is_robust && (c.mutex.owner == notrecoverable)
    then trylock_inherit_lost k c
    else (0, set_count 1 (take (if is_robust then set_pending false (enqueue c) else c)))

-- FUTEX_TRYLOCK_PI, on the word of a dead owner.
abbrev pub trylock_by_kernel : Kernel → Bool → Call → ℕ × Call
trylock_by_kernel k is_robust c =
    let (e, word) = k.trylock_pi c.self.tid c.mutex.lock in
    if e == eagain
    then (ebusy, set_pending false (set_lock word c))
    else trylock_inherit_got k is_robust word (set_lock word c)

-- The word is not 0.
abbrev pub trylock_inherit_busy : Kernel → Bool → Call → Outcome (ℕ × Call)
trylock_inherit_busy k is_robust c =
    if not (has_bit futex_owner_died c.mutex.lock)
    then done (ebusy, set_pending false c)
    else if is_robust
    then done (trylock_by_kernel k is_robust c)
    else aborted

unfoldable pub trylock_inherit : Kernel → Bool → Flavor → Call → Outcome (ℕ × Call)
trylock_inherit k is_robust f c =
    let c₀ = if is_robust then set_pending true c else c in
    if (tid_bits c.mutex.lock == c.self.tid) && is_errorcheck f
    then done (edeadlk, set_pending false c₀)
    else if (tid_bits c.mutex.lock == c.self.tid) && is_recursive f
    then done (returned (bump_count (set_pending false c₀)))
    else if c.mutex.lock == 0
    then done (trylock_inherit_got k is_robust 0 (set_lock c.self.tid c₀))
    else trylock_inherit_busy k is_robust c₀

abbrev trylock_protect_got : Call → Outcome (ℕ × Call)
trylock_protect_got c = do c₁ ← assert (c.mutex.owner == 0) c; done (0, set_count 1 (take c₁))

abbrev pub trylock_protect_busy : Kernel → ℕ → Call → Outcome (ℕ × Call)
trylock_protect_busy k ceiling c = do
  r ← change_priority k (some ceiling) none c.self
  done (ebusy, set_self c r.1)

-- At the ceiling of the word: the thread's priority is raised, and lowered again if it is taken.
abbrev pub trylock_ceiling : Kernel → ℕ → Call → Outcome (ℕ × Call)
trylock_ceiling k ceiling c =
    if c.mutex.lock == ceiling * 524288
    then trylock_protect_got (set_lock (ceiling * 524288 + 1) c)
    else trylock_protect_busy k ceiling c

unfoldable pub trylock_protect_round : Kernel → Call → Outcome (ℕ × Call)
unfolding change_priority current_priority
trylock_protect_round k c =
    let ceiling = ceiling_of c.mutex.lock in
    let (priority, s₀) = current_priority k c.self in
    let c₀ = set_self c s₀ in
    let changed : Outcome (ℕ × Call) = change_priority k none (some ceiling) s₀ >>= λ r.
    (if r.0 == 0
      then trylock_ceiling k ceiling (set_self c₀ r.1)
      else done (r.0, set_self c₀ r.1)) in
    let too_high : Bool = elim priority [ none ↦ false | some p ↦ ltb ceiling p ] in
    if too_high then done (einval, c₀) else changed

unfoldable pub trylock_protect : Kernel → Flavor → Call → Outcome (ℕ × Call)
unfolding trylock_protect_round
trylock_protect k f c =
    if (c.mutex.owner == c.self.tid) && is_errorcheck f
    then done (edeadlk, c)
    else if (c.mutex.owner == c.self.tid) && is_recursive f
    then done (returned (bump_count c))
    else trylock_protect_round k c

-- The `switch`, at PTHREAD_MUTEX_TYPE_ELISION.
unfoldable pub trylock_switch : Kind → Kernel → Call → Outcome (ℕ × Call)
unfolding trylock_recursive trylock_simple trylock_robust trylock_inherit trylock_protect
trylock_switch (plain recursive) k c = done (trylock_recursive c)
trylock_switch elided_recursive k c = done (trylock_recursive c)
trylock_switch elided k c = aborted
trylock_switch (plain timed) k c = done (trylock_simple c)
trylock_switch (plain adaptive) k c = done (trylock_simple c)
trylock_switch (plain errorcheck) k c = done (trylock_simple c)
trylock_switch (robust f) k c = done (trylock_robust f c)
trylock_switch (inherit r f) k c = trylock_inherit k r f c
trylock_switch (protect f) k c = trylock_protect k f c
trylock_switch other k c = done (einval, c)

unfoldable pub do_mutex_trylock : Kernel → Call → Outcome (ℕ × Call)
unfolding decode trylock_switch
do_mutex_trylock k c = trylock_switch (decode (mutex_type_elision c.mutex.kind)) k c
