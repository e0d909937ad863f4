-- ===== src/Mutex/Lock/Inherit.antt =====
-- source/mutex_lock.c, the priority-inheritance mutexes, robust or not.
use sync_perf.Base.{
  ℕ, ◌-◌, Bool, true, false, not, ◌&&◌, ◌||◌, ◌==◌, if◌then◌else◌, has_bit, set_bit, dec32,
}
use sync_perf.Mutex.Kinds.{
  edeadlk, esrch, eownerdead, enotrecoverable, inconsistent, notrecoverable, futex_waiters,
  futex_owner_died, tid_bits, Flavor, recursive, errorcheck,
}
use sync_perf.Mutex.State.{
  Kernel, Call, Outcome, done, hung, aborted, ◌>>=◌, assert, Exit, leave, proceed, set_lock,
  set_count, set_owner, set_nusers, set_pending, enqueue,
}
use sync_perf.Mutex.LowLevel.{Variant, normal, cond_variant}
use sync_perf.Mutex.Lock.Plain.{bump_count}

abbrev pub is_errorcheck : Flavor → Bool
is_errorcheck errorcheck = true
is_errorcheck _ = false

abbrev pub is_recursive : Flavor → Bool
is_recursive recursive = true
is_recursive _ = false

-- `newval`
abbrev pub inherit_word : Variant → ℕ → ℕ
inherit_word normal tid = tid
inherit_word cond_variant tid = set_bit futex_waiters tid

-- FUTEX_LOCK_PI on a locked word. On ESRCH and EDEADLK the call spins for ever.
abbrev pub lock_by_kernel : Kernel → Bool → Flavor → Call → Outcome Call
lock_by_kernel k is_robust f c =
    let (e, word) = k.lock_pi c.self.tid c.mutex.lock in
    let c₁ = set_lock word c in
    if (e == esrch) || (e == edeadlk)
    then if ((e == edeadlk) && (is_errorcheck f || is_recursive f)) || ((e == esrch) && is_robust)
      then aborted
      else hung
    else assert (is_robust || not (has_bit futex_owner_died c₁.mutex.lock)) c₁

-- `atomic_and (&__lock, ~FUTEX_OWNER_DIED)`
abbrev pub clear_died : ℕ → ℕ
clear_died w = if has_bit futex_owner_died w then w - futex_owner_died else w

-- With NO_INCR the dead owner is no longer a user.
abbrev pub discount : Variant → Call → Call
discount normal c = c
discount cond_variant c = set_nusers (dec32 c.mutex.nusers) c

-- The mutex of a dead owner: taken, but inconsistent.
abbrev pub take_over : Variant → Call → Call
take_over v c = discount v (
    set_pending false
      (enqueue (set_owner inconsistent (set_count 1 (set_lock (clear_died c.mutex.lock) c)))))

abbrev pub give_up : Kernel → Call → Call
give_up k c = set_pending false (set_lock (k.unlock_pi c.self.tid c.mutex.lock) (set_count 0 c))

abbrev pub settle : Bool → Call → Call
settle true c = set_pending false (enqueue (set_count 1 c))
settle false c = set_count 1 c

-- Behind the acquisition; `oldval` is tested for FUTEX_OWNER_DIED.
abbrev pub after_inherit : Kernel → Bool → Variant → ℕ → Call → Exit
after_inherit k is_robust v oldval c =
    if has_bit futex_owner_died oldval
    then leave eownerdead (take_over v c)
    else if is_robust && (c.mutex.owner == notrecoverable)
    then leave enotrecoverable (give_up k c)
    else proceed (settle is_robust c)

-- `compare_and_exchange (&__lock, newval, 0)`, and the kernel where it fails.
abbrev pub acquire_inherit : Kernel → Bool → Flavor → Variant → Call → Outcome Exit
acquire_inherit k is_robust f v c =
    if c.mutex.lock == 0
    then done (after_inherit k is_robust v 0 (set_lock (inherit_word v c.self.tid) c))
    else do c₁ ← lock_by_kernel k is_robust f c; done (after_inherit k is_robust v c₁.mutex.lock c₁)

unfoldable pub lock_inherit : Kernel → Bool → Flavor → Variant → Call → Outcome Exit
lock_inherit k is_robust f v c =
    let c₀ = if is_robust then set_pending true c else c in
    if (tid_bits c.mutex.lock == c.self.tid) && is_errorcheck f
    then done (leave edeadlk (set_pending false c₀))
    else if (tid_bits c.mutex.lock == c.self.tid) && is_recursive f
    then done (bump_count (set_pending false c₀))
    else acquire_inherit k is_robust f v c₀
