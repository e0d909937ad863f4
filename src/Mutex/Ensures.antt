-- ===== src/Mutex/Ensures.antt =====
-- What a call on a mutex ensures when it returns, and the access count that stays.
use sync_perf.Base.{ℕ, ◌≡◌, refl, ap, ◌∙◌, arith, Bool, true, false, ◌==◌, if◌then◌else◌}
use sync_perf.Manager.Counters.{ThreadMutex}
use sync_perf.Mutex.State.{
  done-injective, Call, Outcome, done, blocked, hung, aborted, undefined, ◌>>=◌, Self, Exit, leave,
  proceed,
}
use sync_perf.Mutex.LowLevel.{Variant, lll_mutex_lock}
use sync_perf.Mutex.Lock.Plain.{bump_count, unowned}
use sync_perf.Mutex.Waits.{lll_mutex_lock-Waited}

-- If the call returns, the result has the property.
abbrev pub Ensures : {A : Type 0} → (A → Type 0) → Outcome A → Type 0
Ensures P (done a) = P a
Ensures P _ = Unit

module _ {A : Type 0} (P : A → Type 0) where
  pub returned-Ensures : (m : Outcome A) → ((a : A) → m ≡ done a → P a) → Ensures P m
  returned-Ensures (done a) h = h a refl
  returned-Ensures blocked h = tt
  returned-Ensures hung h = tt
  returned-Ensures aborted h = tt
  returned-Ensures undefined h = tt

  pub ensures_result : (m : Outcome A) (a : A) → Ensures P m → m ≡ done a → P a
  ensures_result (done b) a h e = rw (← done-injective e) h
  ensures_result blocked a h e = cc
  ensures_result hung a h e = cc
  ensures_result aborted a h e = cc
  ensures_result undefined a h e = cc

  pub if-Ensures :
      (b : Bool) (m m' : Outcome A) → Ensures P m → Ensures P m' → Ensures P (if b then m else m')
  if-Ensures true m m' h h' = h
  if-Ensures false m m' h h' = h'

  pub bind-Ensures :
      {B : Type 0} (Q : B → Type 0) (m : Outcome B) (f : B → Outcome A)
      → Ensures Q m
      → ((b : B) → Q b → Ensures P (f b))
      → Ensures P (m >>= f)
  bind-Ensures Q (done b) f h next = next b h
  bind-Ensures Q blocked f h next = tt
  bind-Ensures Q hung f h next = tt
  bind-Ensures Q aborted f h next = tt
  bind-Ensures Q undefined f h next = tt

-- Nothing is asked of the result.
pub anything : (m : Outcome (ℕ × Self)) → Ensures (λ _. Unit {0}) m
anything m = returned-Ensures (λ _. Unit {0}) m (λ r e. tt)

module _ (n : ℕ) where
  abbrev pub At : Call → Type 0
  At c = c.stat.access_count ≡ n

  abbrev pub AtExit : Exit → Type 0
  AtExit (leave code c) = At c
  AtExit (proceed c) = At c

  abbrev pub AtResult : ℕ × Call → Type 0
  AtResult r = At r.1

  pub lll_mutex_lock-At : (v : Variant) (c : Call) → At c → Ensures At (lll_mutex_lock v c)
  lll_mutex_lock-At v c h = returned-Ensures At (lll_mutex_lock v c) (λ c' e.
      ap (λ (t : ThreadMutex). t.access_count) (lll_mutex_lock-Waited v c c' e).same_stat ∙ h)

  pub unowned-At : (c : Call) → At c → Ensures At (unowned c)
  unowned-At c h = if-Ensures At (c.mutex.owner == 0) (done c) aborted h tt

  pub bump_count-At : (c : Call) → At c → AtExit (bump_count c)
  bump_count-At c h = ground arith

  pub proceed_unowned-At : (c : Call) → At c → Ensures AtExit (unowned c >>= λ d. done (proceed d))
  proceed_unowned-At c h =
      bind-Ensures AtExit At (unowned c) (λ d. done (proceed d)) (unowned-At c h) (λ d k. k)

  pub exit_if : (b : Bool) (x y : Exit) → AtExit x → AtExit y → AtExit (if b then x else y)
  exit_if true x y h k = h
  exit_if false x y h k = k
