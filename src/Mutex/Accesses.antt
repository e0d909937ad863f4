-- ===== src/Mutex/Accesses.antt =====
-- No call on a mutex changes the access count of its thread: that is the prologue's
-- (source/mutex_lock.c).
mod Plain
mod Inherit
mod Protect
pub mod Trylock
pub mod Unlock
use sync_perf.Base.{
  ℕ, has_bit, ◌*◌, ◌&&◌, ltb, zero, suc, ◌+◌, ◌≡◌, refl, sym, ap, ◌∙◌, arith, Bool, true, false,
  List, [], ◌∷◌, Option, none, some, ◌==◌, if◌then◌else◌, inc32,
}
use sync_perf.Clock.{get_tsc}
use sync_perf.Manager.Counters.{ThreadMutex}
use sync_perf.Mutex.Kinds.{
  notrecoverable, futex_owner_died, ceiling_of, ceiling_bits, eownerdead, enotrecoverable, Flavor,
  timed, recursive, errorcheck, adaptive, Kind, plain, robust, inherit, protect, elided,
  elided_recursive, other, decode, mutex_type_elision,
}
use sync_perf.Mutex.State.{
  done-injective, PMutex, Kernel, Call, Outcome, done, blocked, hung, aborted, undefined, ◌>>=◌,
  assert, Self, Exit, leave, proceed, set_lock, set_count, set_spins, set_pending,
}
use sync_perf.Mutex.LowLevel.{
  Variant, normal, cond_variant, taken, lll_mutex_lock, lll_mutex_trylock, interfere,
}
use sync_perf.Mutex.Priority.{change_priority, current_priority}
use sync_perf.Mutex.Lock.Plain.{
  lock_recursive, lock_errorcheck, lock_timed, lock_adaptive, spin, stop_waiting, bump_count,
  unowned, spin_failed, start_waiting, lock_timed_contended, lock_adaptive_contended,
  lock_adaptive_free, max_cnt, adapt, after_spin,
}
use sync_perf.Mutex.Lock.Inherit.{
  is_errorcheck, is_recursive, lock_inherit, lock_by_kernel, acquire_inherit, after_inherit,
  inherit_word, take_over, give_up, settle, discount,
}
use sync_perf.Mutex.Lock.Protect.{
  Round, returns, acquired, waits, round, retry, mark_waiter, refuse_ceiling, try_ceiling, set_self,
  finish_protect, protect_loop, lock_protect,
}
use sync_perf.Mutex.Lock.{lock_robust, lock_switch, lock_finish, mutex_lock}
use sync_perf.Mutex.Trylock.{
  do_mutex_trylock, trylock_switch, trylock_protect, trylock_protect_round, trylock_inherit,
}
use sync_perf.Mutex.Unlock.{mutex_unlock, unlock_usercnt}
use sync_perf.Mutex.Waits.{lll_mutex_lock-Waited}
use sync_perf.Mutex.Ensures.{
  Ensures, returned-Ensures, if-Ensures, bind-Ensures, At, AtExit, AtResult, lll_mutex_lock-At,
  unowned-At, bump_count-At, exit_if, proceed_unowned-At,
}
use sync_perf.Mutex.Accesses.Plain.{
  lock_recursive-At, lock_timed-At, lock_errorcheck-At, lock_adaptive-At,
}
use sync_perf.Mutex.Accesses.Inherit.{lock_inherit-At}
use sync_perf.Mutex.Accesses.Protect.{lock_protect-At}

module _ (n : ℕ) where
  lock_robust-At : (f : Flavor) (c : Call) → At n c → Ensures (AtExit n) (lock_robust f c)
  lock_robust-At timed c h = h
  lock_robust-At recursive c h = h
  lock_robust-At errorcheck c h = h
  lock_robust-At adaptive c h = tt

  lock_switch-At :
      (d : Kind) (k : Kernel) (v : Variant) (c : Call)
      → At n c
      → Ensures (AtExit n) (lock_switch d k v c)
  unfolding lock_switch
  lock_switch-At (plain recursive) k v c h = lock_recursive-At n v c h
  lock_switch-At (plain errorcheck) k v c h = lock_errorcheck-At n v c h
  lock_switch-At (plain timed) k v c h = lock_timed-At n v c h
  lock_switch-At (plain adaptive) k v c h = lock_adaptive-At n v c h
  lock_switch-At (robust f) k v c h = lock_robust-At f c h
  lock_switch-At (inherit r f) k v c h = lock_inherit-At n k r f v c h
  lock_switch-At (protect f) k v c h = lock_protect-At n k f v c h
  lock_switch-At elided k v c h = h
  lock_switch-At elided_recursive k v c h = h
  lock_switch-At other k v c h = h

  lock_finish-At : (v : Variant) (x : Exit) → AtExit n x → AtResult n (lock_finish v x)
  lock_finish-At v (leave code c) h = h
  lock_finish-At normal (proceed c) h = h
  lock_finish-At cond_variant (proceed c) h = h

  pub mutex_lock-At :
      (k : Kernel) (v : Variant) (c : Call) → At n c → Ensures (AtResult n) (mutex_lock k v c)
  unfolding mutex_lock
  mutex_lock-At k v c h =
      bind-Ensures (AtResult n) (AtExit n) (lock_switch (decode c.mutex.kind) k v c)
        (λ x. done (lock_finish v x)) (lock_switch-At (decode c.mutex.kind) k v c h)
        (lock_finish-At v)
