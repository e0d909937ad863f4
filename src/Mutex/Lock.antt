-- ===== src/Mutex/Lock.antt =====
-- source/mutex_lock.c: `pthread_mutex_lock` behind its instrumented entry, and, with NO_INCR, the
-- `__pthread_mutex_cond_lock` of pthread_mutex_cond_lock.c.
pub mod Plain
pub mod Inherit
pub mod Protect
use sync_perf.Base.{ℕ, Bool, true, false, if◌then◌else◌, inc32, not, ◌&&◌, ◌==◌, has_bit}
use sync_perf.Mutex.Kinds.{
  einval, Flavor, timed, recursive, errorcheck, adaptive, Kind, plain, robust, inherit, protect,
  elided, elided_recursive, other, decode, inherit_bit, robust_bit, pshared_bit,
}
use sync_perf.Mutex.State.{
  Kernel, Call, Outcome, done, blocked, hung, aborted, ◌>>=◌, Exit, leave, proceed, set_owner,
  set_nusers, set_count,
}
use sync_perf.Mutex.LowLevel.{Variant, normal, cond_variant}
use Plain.{lock_recursive, lock_errorcheck, lock_timed, lock_adaptive}
use Inherit.{lock_inherit}
use Protect.{lock_protect}

-- The robust kinds: the body of the case is compiled out, and only its assertion is left.
abbrev pub lock_robust : Flavor → Call → Outcome Exit
lock_robust adaptive c = aborted
lock_robust _ c = done (proceed c)

-- The `switch`, which reads `__kind` with no mask.
unfoldable pub lock_switch : Kind → Kernel → Variant → Call → Outcome Exit
unfolding lock_recursive lock_errorcheck lock_timed lock_adaptive lock_inherit lock_protect
lock_switch (plain recursive) k v c = lock_recursive v c
lock_switch (plain errorcheck) k v c = lock_errorcheck v c
lock_switch (plain timed) k v c = lock_timed v c
lock_switch (plain adaptive) k v c = lock_adaptive v c
lock_switch (robust f) k v c = lock_robust f c
lock_switch (inherit r f) k v c = lock_inherit k r f v c
lock_switch (protect f) k v c = lock_protect k f v c
lock_switch elided k v c = done (leave einval c)
lock_switch elided_recursive k v c = done (leave einval c)
lock_switch other k v c = done (leave einval c)

-- Behind the `switch`: record the ownership.
abbrev pub own : Variant → Call → Call
own normal c = set_nusers (inc32 c.mutex.nusers) (set_owner c.self.tid c)
own cond_variant c = set_owner c.self.tid c

abbrev pub lock_finish : Variant → Exit → ℕ × Call
lock_finish v (leave code c) = (code, c)
lock_finish v (proceed c) = (0, own v c)

-- The return value and the state after the call.
unfoldable pub mutex_lock : Kernel → Variant → Call → Outcome (ℕ × Call)
unfolding decode lock_switch
mutex_lock k v c = do exit ← lock_switch (decode c.mutex.kind) k v c; done (lock_finish v exit)

-- `__pthread_mutex_cond_lock_adjust`: only for a mutex with inheritance alone.
unfoldable pub cond_lock_adjust : Call → Outcome Call
cond_lock_adjust c =
    if has_bit inherit_bit c.mutex.kind
      && (not (has_bit robust_bit c.mutex.kind) && not (has_bit pshared_bit c.mutex.kind))
    then done (
        if c.mutex.kind == 33
        then set_count (inc32 c.mutex.count) (set_owner c.self.tid c)
        else set_owner c.self.tid c)
    else aborted
