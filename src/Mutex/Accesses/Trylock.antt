-- ===== src/Mutex/Accesses/Trylock.antt =====
-- A trylock leaves the access count of its thread (source/mutex_trylock.c).
use sync_perf.Base.{ℕ, ◌+◌, ◌==◌, arith, Bool, true, false, none, some, if◌then◌else◌, ltb, ◌*◌}
use sync_perf.Mutex.Kinds.{
  Flavor, timed, recursive, errorcheck, adaptive, Kind, plain, robust, inherit, protect, elided,
  elided_recursive, other, decode, mutex_type_elision, ceiling_of, einval,
}
use sync_perf.Mutex.State.{Kernel, Call, done, aborted, assert, set_lock, set_pending, set_count}
use sync_perf.Mutex.Priority.{change_priority, current_priority}
use sync_perf.Mutex.Lock.Plain.{bump_count}
use sync_perf.Mutex.Lock.Protect.{set_self}
use sync_perf.Mutex.Trylock.{
  do_mutex_trylock, trylock_switch, trylock_recursive, trylock_simple, trylock_robust,
  trylock_inherit, trylock_protect, trylock_protect_round, trylock_ceiling, trylock_inherit_got,
  trylock_inherit_busy, trylock_by_kernel, trylock_protect_busy, returned, take,
}
use sync_perf.Mutex.Ensures.{Ensures, if-Ensures, bind-Ensures, At, AtResult, anything}

module _ (n : ℕ) where
  result_if :
      (b : Bool) (x y : ℕ × Call) → AtResult n x → AtResult n y → AtResult n (if b then x else y)
  result_if true x y h k = h
  result_if false x y h k = k

  returned_bump-At : (c : Call) → At n c → AtResult n (returned (bump_count c))
  returned_bump-At c h = ground arith

  trylock_recursive-At : (c : Call) → At n c → AtResult n (trylock_recursive c)
  unfolding trylock_recursive
  trylock_recursive-At c h = ground arith

  trylock_simple-At : (c : Call) → At n c → AtResult n (trylock_simple c)
  unfolding trylock_simple
  trylock_simple-At c h = ground arith

  trylock_robust-At : (f : Flavor) (c : Call) → At n c → AtResult n (trylock_robust f c)
  unfolding trylock_robust
  trylock_robust-At f c h = ground arith

  trylock_inherit_got-At :
      (k : Kernel) (r : Bool) (oldval : ℕ) (c : Call)
      → At n c
      → AtResult n (trylock_inherit_got k r oldval c)
  trylock_inherit_got-At k true oldval c h = ground arith
  trylock_inherit_got-At k false oldval c h = ground arith

  trylock_by_kernel-At :
      (k : Kernel) (r : Bool) (c : Call) → At n c → AtResult n (trylock_by_kernel k r c)
  trylock_by_kernel-At k r c h =
      let word = (k.trylock_pi c.self.tid c.mutex.lock).1 in
      let got = trylock_inherit_got-At k r word (set_lock word c) h in search (result_if, got, h)

  trylock_inherit_busy-At :
      (k : Kernel) (r : Bool) (c : Call)
      → At n c
      → Ensures (AtResult n) (trylock_inherit_busy k r c)
  trylock_inherit_busy-At k r c h =
      let asked = trylock_by_kernel-At k r c h in search (if-Ensures (AtResult n), asked, h, tt)

  trylock_inherit-At :
      (k : Kernel) (r : Bool) (f : Flavor) (c : Call)
      → At n c
      → Ensures (AtResult n) (trylock_inherit k r f c)
  unfolding trylock_inherit
  trylock_inherit-At k true f c h =
      let c₀ = set_pending true c in
      let b = returned_bump-At (set_pending false c₀) h in
      let g = trylock_inherit_got-At k true 0 (set_lock c.self.tid c₀) h in
      let y = trylock_inherit_busy-At k true c₀ h in search (if-Ensures (AtResult n), b, g, y, h)
  trylock_inherit-At k false f c h =
      let b = returned_bump-At (set_pending false c) h in
      let g = trylock_inherit_got-At k false 0 (set_lock c.self.tid c) h in
      let y = trylock_inherit_busy-At k false c h in search (if-Ensures (AtResult n), b, g, y)

  trylock_ceiling-At :
      (k : Kernel) (ceiling : ℕ) (c : Call)
      → At n c
      → Ensures (AtResult n) (trylock_ceiling k ceiling c)
  trylock_ceiling-At k ceiling c h =
      if-Ensures (AtResult n) (c.mutex.lock == ceiling * 524288) _
        (trylock_protect_busy k ceiling c)
        (bind-Ensures (AtResult n) (At n)
          (assert (c.mutex.owner == 0) (set_lock (ceiling * 524288 + 1) c))
          (λ c₁. done (0, set_count 1 (take c₁)))
          (if-Ensures (At n) (c.mutex.owner == 0) (done (set_lock (ceiling * 524288 + 1) c)) aborted
            h tt)
          (λ d e. e))
        (bind-Ensures (AtResult n) (λ _. Unit {0}) (change_priority k (some ceiling) none c.self) _
          (anything _) (λ r _. h))

  trylock_protect_round-At :
      (k : Kernel) (c : Call) → At n c → Ensures (AtResult n) (trylock_protect_round k c)
  unfolding trylock_protect_round
  trylock_protect_round-At k c h =
      let ceiling = ceiling_of c.mutex.lock in
      let s₀ = (current_priority k c.self).1 in
      let too_high : Bool = elim (current_priority k c.self).0 [
        | none ↦ false
        | some p ↦ ltb ceiling p
      ] in
      if-Ensures (AtResult n) too_high (done (einval, set_self c s₀)) _ h (
        bind-Ensures (AtResult n) (λ _. Unit {0}) (change_priority k none (some ceiling) s₀)
          (λ r.
            if r.0 == 0
            then trylock_ceiling k ceiling (set_self c r.1)
            else done (r.0, set_self c r.1))
          (anything _)
          (λ r _.
            if-Ensures (AtResult n) (r.0 == 0) (trylock_ceiling k ceiling (set_self c r.1))
              (done (r.0, set_self c r.1)) (trylock_ceiling-At k ceiling (set_self c r.1) h) h))

  trylock_protect-At :
      (k : Kernel) (f : Flavor) (c : Call) → At n c → Ensures (AtResult n) (trylock_protect k f c)
  unfolding trylock_protect
  trylock_protect-At k f c h =
      let b = returned_bump-At c h in
      let round = trylock_protect_round-At k c h in search (if-Ensures (AtResult n), b, round, h)

  trylock_switch-At :
      (d : Kind) (k : Kernel) (c : Call) → At n c → Ensures (AtResult n) (trylock_switch d k c)
  unfolding trylock_switch
  trylock_switch-At (plain recursive) k c h = trylock_recursive-At c h
  trylock_switch-At elided_recursive k c h = trylock_recursive-At c h
  trylock_switch-At elided k c h = tt
  trylock_switch-At (plain timed) k c h = trylock_simple-At c h
  trylock_switch-At (plain adaptive) k c h = trylock_simple-At c h
  trylock_switch-At (plain errorcheck) k c h = trylock_simple-At c h
  trylock_switch-At (robust f) k c h = trylock_robust-At f c h
  trylock_switch-At (inherit r f) k c h = trylock_inherit-At k r f c h
  trylock_switch-At (protect f) k c h = trylock_protect-At k f c h
  trylock_switch-At other k c h = h

  pub do_mutex_trylock-At :
      (k : Kernel) (c : Call) → At n c → Ensures (AtResult n) (do_mutex_trylock k c)
  unfolding do_mutex_trylock
  do_mutex_trylock-At k c h = trylock_switch-At (decode (mutex_type_elision c.mutex.kind)) k c h
