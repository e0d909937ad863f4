-- ===== src/Mutex/Accesses/Plain.antt =====
-- No lock of a plain mutex changes the access count of its thread (source/mutex_lock.c).
use sync_perf.Base.{ℕ, zero, suc, ◌+◌, arith, ◌==◌}
use sync_perf.Clock.{get_tsc}
use sync_perf.Mutex.State.{Call, Outcome, done, ◌>>=◌, Exit, proceed, set_lock, set_spins}
use sync_perf.Mutex.LowLevel.{
  Variant, normal, cond_variant, taken, lll_mutex_lock, lll_mutex_trylock, interfere,
}
use sync_perf.Mutex.Lock.Plain.{
  lock_recursive, lock_errorcheck, lock_timed, lock_adaptive, spin, stop_waiting, unowned,
  spin_failed, start_waiting, lock_timed_contended, lock_adaptive_contended, lock_adaptive_free,
  max_cnt, adapt, after_spin,
}
use sync_perf.Mutex.Ensures.{
  Ensures, if-Ensures, bind-Ensures, At, AtExit, lll_mutex_lock-At, unowned-At, bump_count-At,
  proceed_unowned-At,
}

module _ (n : ℕ) where
  -- A lock of the word, and the owner checked.
  then_unowned-At :
      (v : Variant) (c : Call) (f : Call → Outcome Exit)
      → At n c
      → ((d : Call) → At n d → Ensures (AtExit n) (f d))
      → Ensures (AtExit n) (lll_mutex_lock v c >>= λ c₁. unowned c₁ >>= f)
  then_unowned-At v c f h next =
      bind-Ensures (AtExit n) (At n) (lll_mutex_lock v c) (λ c₁. unowned c₁ >>= f)
        (lll_mutex_lock-At n v c h)
        (λ c₁ h₁. bind-Ensures (AtExit n) (At n) (unowned c₁) f (unowned-At n c₁ h₁) next)

  pub lock_recursive-At :
      (v : Variant) (c : Call) → At n c → Ensures (AtExit n) (lock_recursive v c)
  unfolding lock_recursive
  lock_recursive-At v c h =
      if-Ensures (AtExit n) (c.mutex.owner == c.self.tid) _ _ (bump_count-At n c h)
        (then_unowned-At v c _ h (λ d k. k))

  contended-At : (c : Call) → At n c → Ensures (AtExit n) (lock_timed_contended c)
  unfolding stop_waiting
  contended-At c h =
      then_unowned-At normal (start_waiting c)
        (λ c₂. done (proceed (stop_waiting (get_tsc (c.tsc c.readings)) c₂))) h (λ d k. k)

  pub lock_timed-At : (v : Variant) (c : Call) → At n c → Ensures (AtExit n) (lock_timed v c)
  unfolding lock_timed
  lock_timed-At normal c h =
      if-Ensures (AtExit n) (c.mutex.lock == 2) _ _ (contended-At c h)
        (then_unowned-At normal c _ h (λ d k. k))
  lock_timed-At cond_variant c h = then_unowned-At cond_variant c _ h (λ d k. k)

  pub lock_errorcheck-At :
      (v : Variant) (c : Call) → At n c → Ensures (AtExit n) (lock_errorcheck v c)
  unfolding lock_errorcheck
  lock_errorcheck-At v c h =
      if-Ensures (AtExit n) (c.mutex.owner == c.self.tid) _ _ h (lock_timed-At v c h)

  spin_failed-At : (v : Variant) (c : Call) → At n c → At n (spin_failed v c)
  spin_failed-At normal c h = h
  spin_failed-At cond_variant c h = h

  attempt-At : (v : Variant) (c : Call) → At n c → At n (lll_mutex_trylock v (interfere c)).1
  attempt-At v c h = ground arith

  spin-At :
      (v : Variant) (left cnt : ℕ) (c : Call)
      → At n c
      → Ensures (λ (r : ℕ × Call). At n r.1) (spin v left cnt c)
  unfolding spin
  spin-At v zero cnt c h =
      bind-Ensures (λ (r : ℕ × Call). At n r.1) (At n) (lll_mutex_lock v (spin_failed v c)) _
        (lll_mutex_lock-At n v (spin_failed v c) (spin_failed-At v c h)) (λ d k. k)
  spin-At v (suc left) cnt c h =
      let tried = lll_mutex_trylock v (interfere (spin_failed v c)) in
      let k = attempt-At v (spin_failed v c) (spin_failed-At v c h) in
      if-Ensures (λ (r : ℕ × Call). At n r.1) (tried.0 == 0) (done (cnt + 1, tried.1))
        (spin v left (cnt + 1) tried.1) k (spin-At v left (cnt + 1) tried.1 k)

  pub lock_adaptive-At : (v : Variant) (c : Call) → At n c → Ensures (AtExit n) (lock_adaptive v c)
  unfolding lock_adaptive
  lock_adaptive-At v c h =
      if-Ensures (AtExit n) (c.mutex.lock == 0) (lock_adaptive_free v c)
        (lock_adaptive_contended v c) (proceed_unowned-At n (set_lock (taken v) c) h)
        (bind-Ensures (AtExit n) (λ (r : ℕ × Call). At n r.1) (spin v (max_cnt c.mutex.spins) 0 c)
          after_spin (spin-At v (max_cnt c.mutex.spins) 0 c h)
          (λ r k. proceed_unowned-At n (set_spins (adapt r.0 r.1.mutex.spins) r.1) k))
