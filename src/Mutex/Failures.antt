-- ===== src/Mutex/Failures.antt =====
-- A lock that fails leaves the mutex as it was (source/mutex_lock.c).
use sync_perf.Base.{ℕ, ◌&&◌, if◌then◌else◌, ◌==◌, ◌≡◌, ◌≢◌, refl, arith, List, [], ◌∷◌, none, some}
use sync_perf.Mutex.Kinds.{
  ceiling_of, Flavor, timed, recursive, errorcheck, adaptive, Kind, plain, robust, inherit, protect,
  elided, elided_recursive, other, decode,
}
use sync_perf.Mutex.State.{
  PMutex, Self, Kernel, Call, Outcome, done, blocked, hung, aborted, undefined, ◌>>=◌, assert, Exit,
  leave, proceed, set_count, set_lock, set_spins,
}
use sync_perf.Mutex.LowLevel.{Variant, normal, cond_variant, taken, lll_mutex_lock}
use sync_perf.Mutex.Priority.{change_priority, current_priority}
use sync_perf.Clock.{get_tsc}
use sync_perf.Mutex.Lock.Plain.{
  bump_count, lock_recursive, lock_timed, lock_errorcheck, lock_adaptive, lock_adaptive_free,
  unowned, lock_adaptive_contended, start_waiting, stop_waiting, spin, max_cnt, adapt, after_spin,
}
use sync_perf.Mutex.Lock.Inherit.{is_errorcheck, is_recursive}
use sync_perf.Mutex.Lock.Protect.{
  Round, returns, acquired, waits, round, refuse_ceiling, try_ceiling, take_ceiling, too_high,
  set_self, protect_loop, lock_protect,
}
use sync_perf.Mutex.Lock.{lock_switch, lock_finish, mutex_lock}
use sync_perf.Mutex.Ensures.{Ensures, ensures_result, if-Ensures, bind-Ensures, anything}

-- The kinds that are neither robust nor inherit priorities; with a ceiling, nobody interferes.
abbrev pub IsSimple : Call → Kind → Type 0
IsSimple c (robust f) = ⊥
IsSimple c (inherit r f) = ⊥
IsSimple c (protect f) = c.others ≡ []
IsSimple c _ = Unit

module _ (c : Call) where
  -- The mutex, the counters of the thread and the total of conflicts are those of `c`.
  abbrev pub Untouched : Call → Type 0
  Untouched d = (d.mutex ≡ c.mutex) × ((d.stat ≡ c.stat) × (d.conflicts ≡ c.conflicts))

  abbrev AtExit : Exit → Type 0
  AtExit (leave code d) = code ≢ 0 → Untouched d
  AtExit (proceed d) = Unit

  abbrev AtRound : Round → Type 0
  AtRound (returns code d) = code ≢ 0 → Untouched d
  AtRound (acquired d) = Unit
  AtRound (waits ceiling d) = Unit

  itself : Untouched c
  itself = (refl, (refl, refl))

  bump_count-Untouched : AtExit (bump_count c)
  bump_count-Untouched = ground arith

  -- What goes on to the code behind the `switch` returns 0.
  then_any :
      {A : Type 0} (m : Outcome A) (f : A → Outcome Exit)
      → ((a : A) → Ensures AtExit (f a))
      → Ensures AtExit (m >>= f)
  then_any (done a) f h = h a
  then_any blocked f h = tt
  then_any hung f h = tt
  then_any aborted f h = tt
  then_any undefined f h = tt

  -- A lock of the word, and the owner checked.
  then_unowned :
      (v : Variant) (d : Call) (f : Call → Call)
      → Ensures AtExit (lll_mutex_lock v d >>= λ c₁. unowned c₁ >>= λ c₂. done (proceed (f c₂)))
  then_unowned v d f =
      then_any (lll_mutex_lock v d) (λ c₁. unowned c₁ >>= λ c₂. done (proceed (f c₂)))
        (λ c₁. then_any (unowned c₁) (λ c₂. done (proceed (f c₂))) (λ c₂. tt))

  recursive-AtExit : (v : Variant) → Ensures AtExit (lock_recursive v c)
  unfolding lock_recursive
  recursive-AtExit v =
      if-Ensures AtExit (c.mutex.owner == c.self.tid) _ _ bump_count-Untouched
        (then_unowned v c (set_count 1))

  timed-AtExit : (v : Variant) → Ensures AtExit (lock_timed v c)
  unfolding lock_timed
  timed-AtExit normal =
      if-Ensures AtExit (c.mutex.lock == 2) _ _
        (then_unowned normal (start_waiting c) (stop_waiting (get_tsc (c.tsc c.readings))))
        (then_unowned normal c (λ d. d))
  timed-AtExit cond_variant = then_unowned cond_variant c (λ d. d)

  errorcheck-AtExit : (v : Variant) → Ensures AtExit (lock_errorcheck v c)
  unfolding lock_errorcheck
  errorcheck-AtExit v =
      if-Ensures AtExit (c.mutex.owner == c.self.tid) _ _ (λ failed. itself) (timed-AtExit v)

  proceeds_unowned : (d : Call) → Ensures AtExit (unowned d >>= λ c₁. done (proceed c₁))
  proceeds_unowned d = then_any (unowned d) (λ c₁. done (proceed c₁)) (λ c₁. tt)

  adaptive-AtExit : (v : Variant) → Ensures AtExit (lock_adaptive v c)
  unfolding lock_adaptive
  adaptive-AtExit v =
      if-Ensures AtExit (c.mutex.lock == 0) (lock_adaptive_free v c) (lock_adaptive_contended v c)
        (proceeds_unowned (set_lock (taken v) c))
        (then_any (spin v (max_cnt c.mutex.spins) 0 c) after_spin
          (λ r. proceeds_unowned (set_spins (adapt r.0 r.1.mutex.spins) r.1)))

  -- One round: the priorities of the thread may have changed.
  take_ceiling-AtRound :
      (k : Kernel) (v : Variant) (ceiling : ℕ) (s : Self)
      → Ensures AtRound (take_ceiling k v none ceiling (set_self c s))
  take_ceiling-AtRound k v ceiling s =
      bind-Ensures AtRound (λ _. Unit {0}) (change_priority k none (some ceiling) s) _ (anything _)
        (λ r _. after r)
    where
      tried : (r : ℕ × Self) → AtRound (try_ceiling v ceiling (set_self (set_self c s) r.1))
      tried r = ground arith

      after :
          (r : ℕ × Self)
          → AtRound (
              if r.0 == 0
              then try_ceiling v ceiling (set_self (set_self c s) r.1)
              else returns r.0 (set_self (set_self c s) r.1))
      after r = ground (arith, tried r)

  round-AtRound :
      (k : Kernel) (v : Variant) (oldval : ℕ) → Ensures AtRound (round k v none oldval c)
  unfolding round
  round-AtRound k v oldval =
      let s = (current_priority k c.self).1 in
      if-Ensures AtRound (too_high (current_priority k c.self).0 (ceiling_of oldval))
        (refuse_ceiling k none (set_self c s))
        (take_ceiling k v none (ceiling_of oldval) (set_self c s)) (λ failed. itself)
        (take_ceiling-AtRound k v (ceiling_of oldval) s)

  loop-AtExit :
      (others : List (PMutex → PMutex)) (k : Kernel) (v : Variant) (r : Outcome Round)
      → others ≡ []
      → Ensures AtRound r
      → Ensures AtExit (protect_loop others k v r)
  unfolding protect_loop
  loop-AtExit others k v (done (returns code d)) alone h = h
  loop-AtExit others k v (done (acquired d)) alone h =
      then_any (assert (d.mutex.owner == 0) d) (λ c₁. done (proceed (set_count 1 c₁))) (λ c₁. tt)
  loop-AtExit [] k v (done (waits ceiling d)) alone h = tt
  loop-AtExit (f ∷ fs) k v (done (waits ceiling d)) alone h = cc
  loop-AtExit others k v blocked alone h = tt
  loop-AtExit others k v hung alone h = tt
  loop-AtExit others k v aborted alone h = tt
  loop-AtExit others k v undefined alone h = tt

  protect-AtExit :
      (k : Kernel) (f : Flavor) (v : Variant)
      → c.others ≡ []
      → Ensures AtExit (lock_protect k f v c)
  unfolding lock_protect
  protect-AtExit k f v alone =
      if-Ensures AtExit ((c.mutex.owner == c.self.tid) && is_errorcheck f) _ _ (λ failed. itself)
        (if-Ensures AtExit ((c.mutex.owner == c.self.tid) && is_recursive f) _ _
          bump_count-Untouched
          (loop-AtExit c.others k v (round k v none c.mutex.lock c) alone
            (round-AtRound k v c.mutex.lock)))

  switch-AtExit :
      (d : Kind) (k : Kernel) (v : Variant) → IsSimple c d → Ensures AtExit (lock_switch d k v c)
  unfolding lock_switch
  switch-AtExit (plain recursive) k v h = recursive-AtExit v
  switch-AtExit (plain errorcheck) k v h = errorcheck-AtExit v
  switch-AtExit (plain timed) k v h = timed-AtExit v
  switch-AtExit (plain adaptive) k v h = adaptive-AtExit v
  switch-AtExit (robust f) k v h = absurd h
  switch-AtExit (inherit r f) k v h = absurd h
  switch-AtExit (protect f) k v h = protect-AtExit k f v h
  switch-AtExit elided k v h = λ failed. itself
  switch-AtExit elided_recursive k v h = λ failed. itself
  switch-AtExit other k v h = λ failed. itself

  AtResult : ℕ × Call → Type 0
  AtResult r = r.0 ≢ 0 → Untouched r.1

  finish-AtResult : (v : Variant) (x : Exit) → AtExit x → AtResult (lock_finish v x)
  unfolding AtResult
  finish-AtResult v (leave code d) h = h
  finish-AtResult v (proceed d) h = λ failed. absurd (failed refl)

-- A lock that returns an error, of whatever kind the mutex is but robust or inheriting priorities,
-- leaves the mutex, the counters of the thread and the count of conflicts as they were; also where
-- the thread runs above the ceiling, or its priority cannot be raised to it. The other threads may
-- interfere, unless the mutex has a ceiling.
pub mutex_lock_fails :
    (k : Kernel) (v : Variant) (c d : Call) (code : ℕ)
    → IsSimple c (decode c.mutex.kind)
    → mutex_lock k v c ≡ done (code, d)
    → code ≢ 0
    → (d.mutex ≡ c.mutex) × ((d.stat ≡ c.stat) × (d.conflicts ≡ c.conflicts))
unfolding mutex_lock AtResult
mutex_lock_fails k v c d code simple e failed =
    ensures_result (AtResult c) (mutex_lock k v c) (code, d)
      (bind-Ensures (AtResult c) (AtExit c) (lock_switch (decode c.mutex.kind) k v c)
        (λ x. done (lock_finish v x)) (switch-AtExit c (decode c.mutex.kind) k v simple)
        (finish-AtResult c v))
      e failed
