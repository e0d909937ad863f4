-- ===== src/Mutex/Accesses/Protect.antt =====
-- No lock of a mutex with a priority ceiling changes the access count of its thread
-- (source/mutex_lock.c).
use sync_perf.Base.{
  ℕ, ◌*◌, ◌&&◌, arith, Bool, true, false, List, [], ◌∷◌, Option, none, some, ◌==◌, if◌then◌else◌,
}
use sync_perf.Mutex.Kinds.{ceiling_of, ceiling_bits, Flavor}
use sync_perf.Mutex.State.{
  PMutex, Kernel, Call, Outcome, done, blocked, hung, aborted, undefined, assert, proceed,
  set_count,
}
use sync_perf.Mutex.LowLevel.{Variant}
use sync_perf.Mutex.Priority.{change_priority, current_priority}
use sync_perf.Mutex.Lock.Inherit.{is_errorcheck, is_recursive}
use sync_perf.Mutex.Lock.Protect.{
  Round, returns, acquired, waits, round, retry, mark_waiter, refuse_ceiling, try_ceiling,
  take_ceiling, too_high, set_self, protect_loop, lock_protect,
}
use sync_perf.Mutex.Ensures.{
  Ensures, if-Ensures, bind-Ensures, At, AtExit, unowned-At, bump_count-At, anything,
}

module _ (n : ℕ) where
  -- A round keeps the count, and so does what follows a wait.
  abbrev AtRound : Round → Type 0
  AtRound (returns code c) = At n c
  AtRound (acquired c) = At n c
  AtRound (waits ceiling c) = At n c

  round_if : (b : Bool) (x y : Round) → AtRound x → AtRound y → AtRound (if b then x else y)
  round_if true x y h k = h
  round_if false x y h k = k

  mark_waiter-At : (ceiling : ℕ) (c : Call) → At n c → At n (mark_waiter ceiling c)
  mark_waiter-At ceiling c h = ground arith

  refuse_ceiling-At :
      (k : Kernel) (o : Option ℕ) (c : Call) → At n c → Ensures AtRound (refuse_ceiling k o c)
  refuse_ceiling-At k none c h = h
  refuse_ceiling-At k (some p) c h =
      bind-Ensures AtRound (λ _. Unit {0}) (change_priority k (some p) none c.self) _ (anything _)
        (λ r _. h)

  try_ceiling-At :
      (v : Variant) (ceiling : ℕ) (c : Call) → At n c → AtRound (try_ceiling v ceiling c)
  try_ceiling-At v ceiling c h = search (round_if, mark_waiter-At ceiling c h, h)

  take_ceiling-At :
      (k : Kernel) (v : Variant) (o : Option ℕ) (ceiling : ℕ) (c : Call)
      → At n c
      → Ensures AtRound (take_ceiling k v o ceiling c)
  take_ceiling-At k v o ceiling c h =
      bind-Ensures AtRound (λ _. Unit {0}) (change_priority k o (some ceiling) c.self) _
        (anything _)
        (λ r _.
          round_if (r.0 == 0) (try_ceiling v ceiling (set_self c r.1))
            (returns r.0 (set_self c r.1)) (try_ceiling-At v ceiling (set_self c r.1) h) h)

  round-At :
      (k : Kernel) (v : Variant) (o : Option ℕ) (oldval : ℕ) (c : Call)
      → At n c
      → Ensures AtRound (round k v o oldval c)
  unfolding round
  round-At k v o oldval c h =
      let c₀ = set_self c (current_priority k c.self).1 in
      if-Ensures AtRound (too_high (current_priority k c.self).0 (ceiling_of oldval))
        (refuse_ceiling k o c₀) (take_ceiling k v o (ceiling_of oldval) c₀)
        (refuse_ceiling-At k o c₀ h) (take_ceiling-At k v o (ceiling_of oldval) c₀ h)

  retry-At :
      (k : Kernel) (v : Variant) (ceiling : ℕ) (c : Call)
      → At n c
      → Ensures AtRound (retry k v ceiling c)
  retry-At k v ceiling c h = if-Ensures AtRound (c.mutex.lock == ceiling * 524288) _ _ h (
      if-Ensures AtRound (ceiling_bits c.mutex.lock == ceiling * 524288) _ _
        (mark_waiter-At ceiling c h) (round-At k v (some ceiling) c.mutex.lock c h))

  protect_loop-At :
      (others : List (PMutex → PMutex)) (k : Kernel) (v : Variant) (r : Outcome Round)
      → Ensures AtRound r
      → Ensures (AtExit n) (protect_loop others k v r)
  unfolding protect_loop
  protect_loop-At others k v (done (returns code c)) h = h
  protect_loop-At others k v (done (acquired c)) h =
      bind-Ensures (AtExit n) (At n) (assert (c.mutex.owner == 0) c)
        (λ c₁. done (proceed (set_count 1 c₁))) (unowned-At n c h) (λ d j. j)
  protect_loop-At [] k v (done (waits ceiling c)) h = tt
  protect_loop-At (f ∷ fs) k v (done (waits ceiling c)) h =
      let c' = record c { mutex = f c.mutex; others = fs } in
      protect_loop-At fs k v (retry k v ceiling c') (retry-At k v ceiling c' h)
  protect_loop-At others k v blocked h = tt
  protect_loop-At others k v hung h = tt
  protect_loop-At others k v aborted h = tt
  protect_loop-At others k v undefined h = tt

  pub lock_protect-At :
      (k : Kernel) (f : Flavor) (v : Variant) (c : Call)
      → At n c
      → Ensures (AtExit n) (lock_protect k f v c)
  unfolding lock_protect
  lock_protect-At k f v c h =
      if-Ensures (AtExit n) ((c.mutex.owner == c.self.tid) && is_errorcheck f) _ _ h (
        if-Ensures (AtExit n) ((c.mutex.owner == c.self.tid) && is_recursive f) _ _
          (bump_count-At n c h)
          (protect_loop-At c.others k v (round k v none c.mutex.lock c)
            (round-At k v none c.mutex.lock c h)))
