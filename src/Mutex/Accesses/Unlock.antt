-- ===== src/Mutex/Accesses/Unlock.antt =====
-- An unlock leaves the access count of its thread (source/mutex_unlock.c).
use sync_perf.Base.{ℕ, ◌==◌, arith, Bool, true, false, none, some, ◌/◌, ◌%◌}
use sync_perf.Mutex.Kinds.{
  Flavor, timed, recursive, errorcheck, adaptive, Kind, plain, robust, inherit, protect, elided,
  elided_recursive, other, decode, mutex_type, flavor, ceiling_of,
}
use sync_perf.Mutex.State.{Kernel, Call}
use sync_perf.Mutex.Priority.{change_priority}
use sync_perf.Mutex.Unlock.{
  mutex_unlock, unlock_usercnt, unlock_plain, unlock_full, unlock_robust, unlock_inherit,
  unlock_protect, unlock_protect_recursive, release_protect, drop_count,
}
use sync_perf.Mutex.Ensures.{Ensures, if-Ensures, bind-Ensures, At, AtResult, anything}

module _ (n : ℕ) where
  unlock_plain-At :
      (f : Flavor) (elision decr : Bool) (c : Call)
      → At n c
      → Ensures (AtResult n) (unlock_plain f elision decr c)
  unlock_plain-At timed false true c h = ground arith
  unlock_plain-At timed false false c h = ground arith
  unlock_plain-At timed true decr c h = tt
  unlock_plain-At recursive elision true c h = ground arith
  unlock_plain-At recursive elision false c h = ground arith
  unlock_plain-At adaptive elision true c h = ground arith
  unlock_plain-At adaptive elision false c h = ground arith
  unlock_plain-At errorcheck true decr c h = tt
  unlock_plain-At errorcheck false true c h = ground arith
  unlock_plain-At errorcheck false false c h = ground arith

  unlock_robust-At :
      (f : Flavor) (decr : Bool) (c : Call) → At n c → AtResult n (unlock_robust f decr c)
  unlock_robust-At timed true c h = ground arith
  unlock_robust-At timed false c h = ground arith
  unlock_robust-At recursive true c h = ground arith
  unlock_robust-At recursive false c h = ground arith
  unlock_robust-At adaptive true c h = ground arith
  unlock_robust-At adaptive false c h = ground arith
  unlock_robust-At errorcheck true c h = ground arith
  unlock_robust-At errorcheck false c h = ground arith

  release_protect-At :
      (k : Kernel) (decr : Bool) (c : Call)
      → At n c
      → Ensures (AtResult n) (release_protect k decr c)
  unfolding release_protect
  release_protect-At k true c h =
      bind-Ensures (AtResult n) (λ _. Unit {0})
        (change_priority k (some (ceiling_of c.mutex.lock)) none c.self) _ (anything _)
        (λ r _. ground arith)
  release_protect-At k false c h =
      bind-Ensures (AtResult n) (λ _. Unit {0})
        (change_priority k (some (ceiling_of c.mutex.lock)) none c.self) _ (anything _)
        (λ r _. ground arith)

  unlock_protect_recursive-At :
      (k : Kernel) (decr : Bool) (c : Call)
      → At n c
      → Ensures (AtResult n) (unlock_protect_recursive k decr c)
  unfolding unlock_protect_recursive
  unlock_protect_recursive-At k decr c h =
      let p = release_protect-At k decr (drop_count c) h in search (if-Ensures (AtResult n), p, h)

  unlock_protect-At :
      (f : Flavor) (k : Kernel) (decr : Bool) (c : Call)
      → At n c
      → Ensures (AtResult n) (unlock_protect f k decr c)
  unfolding unlock_protect
  unlock_protect-At recursive k decr c h = unlock_protect_recursive-At k decr c h
  unlock_protect-At errorcheck k decr c h =
      let p = release_protect-At k decr c h in search (if-Ensures (AtResult n), p, h)
  unlock_protect-At timed k decr c h = release_protect-At k decr c h
  unlock_protect-At adaptive k decr c h = release_protect-At k decr c h

  unlock_inherit-At :
      (r : Bool) (f : Flavor) (k : Kernel) (decr : Bool) (c : Call)
      → At n c
      → Ensures (AtResult n) (unlock_inherit r f k decr c)
  unfolding unlock_inherit
  unlock_inherit-At false recursive k decr c h =
      let p = unlock_protect_recursive-At k decr (drop_count c) h in
      search (if-Ensures (AtResult n), p, h)
  unlock_inherit-At true recursive k decr c h = unlock_protect_recursive-At k decr c h
  unlock_inherit-At false timed k decr c h = unlock_protect_recursive-At k decr c h
  unlock_inherit-At true timed k decr c h = unlock_protect_recursive-At k decr c h
  unlock_inherit-At false errorcheck k decr c h = unlock_protect_recursive-At k decr c h
  unlock_inherit-At true errorcheck k decr c h = unlock_protect_recursive-At k decr c h
  unlock_inherit-At false adaptive k decr c h = unlock_protect_recursive-At k decr c h
  unlock_inherit-At true adaptive k decr c h = unlock_protect_recursive-At k decr c h

  unlock_full-At :
      (d : Kind) (k : Kernel) (decr : Bool) (c : Call)
      → At n c
      → Ensures (AtResult n) (unlock_full d k decr c)
  unfolding unlock_full
  unlock_full-At (robust f) k decr c h = unlock_robust-At f decr c h
  unlock_full-At (inherit r f) k decr c h = unlock_inherit-At r f k decr c h
  unlock_full-At (protect f) k decr c h = unlock_protect-At f k decr c h
  unlock_full-At (plain f) k decr c h = h
  unlock_full-At elided k decr c h = h
  unlock_full-At elided_recursive k decr c h = h
  unlock_full-At other k decr c h = h

  pub unlock_usercnt-At :
      (k : Kernel) (decr : Bool) (c : Call)
      → At n c
      → Ensures (AtResult n) (unlock_usercnt k decr c)
  unfolding unlock_usercnt
  unlock_usercnt-At k decr c h =
      let simple = unlock_plain-At (flavor c.mutex.kind) (c.mutex.kind / 256 % 2 == 1) decr c h in
      let full = unlock_full-At (decode (mutex_type c.mutex.kind)) k decr c h in
      if-Ensures (AtResult n) (mutex_type c.mutex.kind / 4 == 0) _ _ simple full

  pub mutex_unlock-At : (k : Kernel) (c : Call) → At n c → Ensures (AtResult n) (mutex_unlock k c)
  unfolding mutex_unlock
  mutex_unlock-At k c h = unlock_usercnt-At k true c h
