-- ===== src/Mutex/Lock/Protect.antt =====
-- source/mutex_lock.c, the priority-protection mutexes: the lock word holds the ceiling in its
-- upper 13 bits, and 0, 1 or 2 below.
use sync_perf.Base.{
  ℕ, ◌+◌, ◌*◌, Bool, false, ◌&&◌, List, [], ◌∷◌, Option, none, some, ◌==◌, ltb, if◌then◌else◌,
}
use sync_perf.Mutex.Kinds.{edeadlk, einval, ceiling_bits, ceiling_of, Flavor}
use sync_perf.Mutex.State.{
  PMutex, Self, Kernel, Call, Outcome, done, blocked, hung, aborted, undefined, ◌>>=◌, assert, Exit,
  leave, proceed, set_lock, set_count,
}
use sync_perf.Mutex.LowLevel.{Variant, taken}
use sync_perf.Mutex.Priority.{change_priority, current_priority}
use sync_perf.Mutex.Lock.Plain.{bump_count}
use sync_perf.Mutex.Lock.Inherit.{is_errorcheck, is_recursive}

-- How one round of the outer loop ends: by a `return`, with the mutex, or at the wait for the
-- mutex at the ceiling that the thread has taken.
pub data Round : Type 0 where
  returns : (code : ℕ) → Call → Round
  acquired : Call → Round
  waits : (ceiling : ℕ) → Call → Round

abbrev pub set_self : Call → Self → Call
set_self c s = record c { self = s }

-- The ceiling is below the thread's priority: give up an older ceiling, and fail.
abbrev pub refuse_ceiling : Kernel → Option ℕ → Call → Outcome Round
refuse_ceiling k none c = done (returns einval c)
refuse_ceiling k (some p) c = do
  r ← change_priority k (some p) none c.self
  done (returns einval (set_self c r.1))

-- The inner loop up to its wait: a word that says "locked" now says "with waiters".
abbrev pub mark_waiter : ℕ → Call → Call
mark_waiter ceiling c =
    if c.mutex.lock == ceiling * 524288 + 1 then set_lock (ceiling * 524288 + 2) c else c

-- The compare-exchange from `ceilval`, and the wait where it fails.
abbrev pub try_ceiling : Variant → ℕ → Call → Round
try_ceiling v ceiling c =
    if c.mutex.lock == ceiling * 524288
    then acquired (set_lock (ceiling * 524288 + taken v) c)
    else waits ceiling (mark_waiter ceiling c)

-- The thread takes the ceiling in place of an older one, and then tries the word.
abbrev pub take_ceiling : Kernel → Variant → Option ℕ → (ceiling : ℕ) → Call → Outcome Round
take_ceiling k v oldprio ceiling c = do
  r ← change_priority k oldprio (some ceiling) c.self
  done (if r.0 == 0 then try_ceiling v ceiling (set_self c r.1) else returns r.0 (set_self c r.1))

-- `ceiling < curprio`, where -1 is below every ceiling.
abbrev pub too_high : Option ℕ → (ceiling : ℕ) → Bool
too_high none ceiling = false
too_high (some p) ceiling = ltb ceiling p

abbrev pub round_at :
    Kernel → Variant → Option ℕ → (ceiling : ℕ) → (priority : Option ℕ) → Call → Outcome Round
round_at k v oldprio ceiling priority c =
    let changed = take_ceiling k v oldprio ceiling c in
    if too_high priority ceiling then refuse_ceiling k oldprio c else changed

-- The outer loop's body, at `oldprio` and `oldval`.
unfoldable pub round : Kernel → Variant → Option ℕ → ℕ → Call → Outcome Round
unfolding change_priority current_priority
round k v oldprio oldval c =
    let (priority, s₀) = current_priority k c.self in
    round_at k v oldprio (ceiling_of oldval) priority (set_self c s₀)

-- After a wait at `ceiling`: take the word if it is free at that ceiling, wait again if the
-- ceiling is the same, and go through the outer loop again if it has changed.
abbrev pub retry : Kernel → Variant → ℕ → Call → Outcome Round
retry k v ceiling c =
    if c.mutex.lock == ceiling * 524288
    then done (acquired (set_lock (ceiling * 524288 + 2) c))
    else if ceiling_bits c.mutex.lock == ceiling * 524288
    then done (waits ceiling (mark_waiter ceiling c))
    else round k v (some ceiling) c.mutex.lock c

-- The end of the case.
abbrev pub finish_protect : Call → Outcome Exit
finish_protect c = do c₁ ← assert (c.mutex.owner == 0) c; done (proceed (set_count 1 c₁))

-- Both loops; every wait lets the other threads act once.
unfoldable pub protect_loop :
    List (PMutex → PMutex) → Kernel → Variant → Outcome Round → Outcome Exit
unfolding round
protect_loop others k v (done (returns code c)) = done (leave code c)
protect_loop others k v (done (acquired c)) = finish_protect c
protect_loop [] k v (done (waits ceiling c)) = blocked
protect_loop (f ∷ fs) k v (done (waits ceiling c)) =
    protect_loop fs k v (retry k v ceiling (record c { mutex = f c.mutex; others = fs }))
protect_loop others k v blocked = blocked
protect_loop others k v hung = hung
protect_loop others k v aborted = aborted
protect_loop others k v undefined = undefined

unfoldable pub lock_protect : Kernel → Flavor → Variant → Call → Outcome Exit
unfolding round protect_loop
lock_protect k f v c =
    if (c.mutex.owner == c.self.tid) && is_errorcheck f
    then done (leave edeadlk c)
    else if (c.mutex.owner == c.self.tid) && is_recursive f
    then done (bump_count c)
    else protect_loop c.others k v (round k v none c.mutex.lock c)
