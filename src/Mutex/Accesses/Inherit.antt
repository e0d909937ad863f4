-- ===== src/Mutex/Accesses/Inherit.antt =====
-- No lock of a mutex with priority inheritance changes the access count of its thread
-- (source/mutex_lock.c).
use sync_perf.Base.{ℕ, has_bit, ◌&&◌, Bool, true, false, ◌==◌, if◌then◌else◌}
use sync_perf.Mutex.Kinds.{notrecoverable, futex_owner_died, eownerdead, enotrecoverable, Flavor}
use sync_perf.Mutex.State.{Kernel, Call, done, leave, proceed, set_lock, set_pending}
use sync_perf.Mutex.LowLevel.{Variant, normal, cond_variant}
use sync_perf.Mutex.Lock.Inherit.{
  lock_inherit, lock_by_kernel, acquire_inherit, after_inherit, inherit_word, take_over, give_up,
  settle, discount,
}
use sync_perf.Mutex.Ensures.{Ensures, if-Ensures, bind-Ensures, At, AtExit, bump_count-At, exit_if}

module _ (n : ℕ) where
  lock_by_kernel-At :
      (k : Kernel) (r : Bool) (f : Flavor) (c : Call)
      → At n c
      → Ensures (At n) (lock_by_kernel k r f c)
  lock_by_kernel-At k r f c h = search (if-Ensures (At n), h, tt)

  discount-At : (v : Variant) (c : Call) → At n c → At n (discount v c)
  discount-At normal c h = h
  discount-At cond_variant c h = h

  settle-At : (r : Bool) (c : Call) → At n c → At n (settle r c)
  settle-At true c h = h
  settle-At false c h = h

  after_inherit-At :
      (k : Kernel) (r : Bool) (v : Variant) (oldval : ℕ) (c : Call)
      → At n c
      → AtExit n (after_inherit k r v oldval c)
  after_inherit-At k r v oldval c h =
      exit_if n (has_bit futex_owner_died oldval) (leave eownerdead (take_over v c))
        (if r && (c.mutex.owner == notrecoverable)
          then leave enotrecoverable (give_up k c)
          else proceed (settle r c))
        (discount-At v _ h)
        (exit_if n (r && (c.mutex.owner == notrecoverable)) (leave enotrecoverable (give_up k c))
          (proceed (settle r c)) h (settle-At r c h))

  acquire_inherit-At :
      (k : Kernel) (r : Bool) (f : Flavor) (v : Variant) (c : Call)
      → At n c
      → Ensures (AtExit n) (acquire_inherit k r f v c)
  acquire_inherit-At k r f v c h =
      if-Ensures (AtExit n) (c.mutex.lock == 0) _ _
        (after_inherit-At k r v 0 (set_lock (inherit_word v c.self.tid) c) h)
        (bind-Ensures (AtExit n) (At n) (lock_by_kernel k r f c)
          (λ d. done (after_inherit k r v d.mutex.lock d)) (lock_by_kernel-At k r f c h)
          (λ d j. after_inherit-At k r v d.mutex.lock d j))

  pub lock_inherit-At :
      (k : Kernel) (r : Bool) (f : Flavor) (v : Variant) (c : Call)
      → At n c
      → Ensures (AtExit n) (lock_inherit k r f v c)
  unfolding lock_inherit
  lock_inherit-At k true f v c h =
      let b = bump_count-At n (set_pending false (set_pending true c)) h in
      search (if-Ensures (AtExit n), b, acquire_inherit-At k true f v (set_pending true c) h, h)
  lock_inherit-At k false f v c h =
      let b = bump_count-At n (set_pending false c) h in
      search (if-Ensures (AtExit n), b, acquire_inherit-At k false f v c h, h)
