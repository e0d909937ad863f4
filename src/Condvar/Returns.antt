-- ===== src/Condvar/Returns.antt =====
-- When a wait on a condition variable returns (source/cond_wait.c).
use sync_perf.Base.{
  ℕ, zero, suc, ◌+◌, ◌<◌, ◌≤◌, ◌≡◌, ◌≢◌, ◌⊎◌, ◌↔◌, inl, inr, refl, sym, ◌∙◌, ap, arith, List, [],
  ◌∷◌, All, length, ◌==◌, Bool-cases,
}
use sync_perf.Mutex.State.{done}
use sync_perf.Condvar.Wait.{Condvar, enter, inc64, leave, not_eligible, wait_loop, wait_on}
use sync_perf.Condvar.Order.{IsOrdered, Respects, state_after, loop-IsLeft, enter-IsOrdered}

-- No wakeup is taken back.
unfoldable pub Advances : (Condvar → Condvar) → Type 0
Advances f = (d : Condvar) → d.wakeup_seq ≤ (f d).wakeup_seq

-- Since the wait began, when `seq` wakeups had been sent and `bc_seq` broadcasts, there has been a
-- broadcast, or wakeups were sent of which one is not taken.
abbrev pub IsWoken : (seq bc_seq : ℕ) → Condvar → Type 0
IsWoken seq bc_seq d =
    (d.broadcast_seq ≢ bc_seq) ⊎ ((seq < d.wakeup_seq) × (d.woken_seq < d.wakeup_seq))

-- One turn of the loop: the wait ends, or it goes on.
turn :
    (n : ℕ) (f : Condvar → Condvar) (fs : List (Condvar → Condvar)) (seq bc_seq waits : ℕ)
    (d : Condvar)
    → IsOrdered (n + 1) (f d)
    → seq ≤ (f d).wakeup_seq
    → (IsWoken seq bc_seq (f d)
        × ((e : Condvar) × (wait_loop (f ∷ fs) seq bc_seq waits d ≡ done (waits + 1, e))))
      ⊎ ((¬ IsWoken seq bc_seq (f d))
          × (wait_loop (f ∷ fs) seq bc_seq waits d ≡ wait_loop fs seq bc_seq (waits + 1) (f d)))
unfolding wait_loop
turn n f fs seq bc_seq waits d q low =
    let taken = q.woken in
    let woken = record (f d) { woken_seq = inc64 (f d).woken_seq } in
    elim (Bool-cases (bc_seq == (f d).broadcast_seq)) [
      | inr changed ↦ inl (inl (λ e. ground (arith, changed)), (leave (f d), rw changed refl))
      | inl same ↦ elim (Bool-cases (not_eligible seq (f d))) [
        | inr free ↦
            inl (
              inr (ground (arith, free), ground (arith, free)),
              (leave woken, rw (same, free) refl),
            )
        | inl stay ↦ inr (
          λ w. elim w [
            | inl other ↦ absurd (ground (arith, same))
            | inr sent ↦ absurd (ground (arith, stay))
          ],
          rw (same, stay) refl,
        )
      ]
    ]

-- The turn after `k` others is the first at which the variable wakes the waiter.
abbrev pub IsFirst : (seq bc_seq k : ℕ) → List (Condvar → Condvar) → Condvar → Type 0
IsFirst seq bc_seq k others d =
    IsWoken seq bc_seq (state_after (suc k) others d)
    × ((j : ℕ) → j < k → ¬ IsWoken seq bc_seq (state_after (suc j) others d))

abbrev Returns :
    (others : List (Condvar → Condvar)) (seq bc_seq waits waits' : ℕ) → Condvar → Type 0
Returns others seq bc_seq waits waits' d =
    (d' : Condvar) × (wait_loop others seq bc_seq waits d ≡ done (waits', d'))

IsFirst-suc :
    (f : Condvar → Condvar) (fs : List (Condvar → Condvar)) (seq bc_seq k : ℕ) (d : Condvar)
    → ¬ IsWoken seq bc_seq (f d)
    → IsFirst seq bc_seq k fs (f d)
    → IsFirst seq bc_seq (suc k) (f ∷ fs) d
IsFirst-suc f fs seq bc_seq k d asleep first = (first.0, asleep_before)
  where
    asleep_before : (j : ℕ) → j < suc k → ¬ IsWoken seq bc_seq (state_after (suc j) (f ∷ fs) d)
    asleep_before zero below = asleep
    asleep_before (suc j) below = first.1 j (omega (arith, below))

loop-IsFirst :
    (n : ℕ) (others : List (Condvar → Condvar)) (seq bc_seq waits k : ℕ) (d : Condvar)
    → All (Respects (n + 1)) others
    → All Advances others
    → IsOrdered (n + 1) d
    → seq ≤ d.wakeup_seq
    → k < length others
    → Returns others seq bc_seq waits (waits + suc k) d ↔ IsFirst seq bc_seq k others d
unfolding Respects Advances
loop-IsFirst n [] seq bc_seq waits k d h a p low short = absurd (omega (arith, short))
loop-IsFirst n (f ∷ fs) seq bc_seq waits zero d h a p low short =
    let q = h.0 d p in
    elim (turn n f fs seq bc_seq waits d q (omega (arith, low, a.0 d))) [
      | inl (woken, returned) ↦
          (λ r. (woken, λ j below. absurd (omega (arith, below))), λ first. returned)
      | inr (asleep, eq) ↦ (
        λ r.
            let left =
              loop-IsLeft n fs seq bc_seq (waits + 1) (waits + 1) (f d) r.0 h.1 q (sym eq ∙ r.1) in
            absurd (omega (arith, left.sleeps_eq, left.slept)),
        λ first. absurd (asleep first.0),
      )
    ]
loop-IsFirst n (f ∷ fs) seq bc_seq waits (suc k) d h a p low short =
    let q = h.0 d p in
    let higher : seq ≤ (f d).wakeup_seq = omega (arith, low, a.0 d) in
    let rest =
      loop-IsFirst n fs seq bc_seq (waits + 1) k (f d) h.1 a.1 q higher (omega (arith, short)) in
    let count : waits + suc (suc k) ≡ waits + 1 + suc k = omega arith in
    elim (turn n f fs seq bc_seq waits d q higher) [
      | inl (woken, returned) ↦ (
        λ r. absurd (ground (arith, returned.1, r.1)),
        λ first. absurd (first.1 0 (omega arith) woken),
      )
      | inr (asleep, eq) ↦ (
        λ r.
            IsFirst-suc f fs seq bc_seq k d asleep
              (rest.0 (r.0, sym eq ∙ r.1 ∙ ap (λ w. done (w, r.0)) count)),
        λ first.
            let r = rest.1 (first.0, λ j below. first.1 (suc j) (omega (arith, below))) in
            (r.0, eq ∙ r.1 ∙ ap (λ w. done (w, r.0)) (sym count)),
      )
    ]

-- If the other threads respect the order of the counters and take no wakeup back, then a wait
-- returns after a number of sleeps, up to the number of actions of the others that are given,
-- exactly if it is the first at which a broadcast has come since the wait began, or wakeups were
-- sent since then of which one is not taken: the wait neither misses its wakeup nor returns without
-- one. No counter may be about to wrap.
pub wait_on_returns :
    (n address : ℕ) (others : List (Condvar → Condvar)) (k : ℕ) (d : Condvar)
    → All (Respects (n + 1)) others
    → All Advances others
    → IsOrdered n d
    → d.total_seq < 18446744073709551614
    → d.nwaiters < 4294967280
    → k < length others
    → ((d' : Condvar) × (wait_on others address d ≡ done (suc k, d')))
      ↔ IsFirst d.wakeup_seq d.broadcast_seq k others (enter address d)
unfolding wait_on
wait_on_returns n address others k d h a p total_small waiters_small short =
    let sleeps : 0 + suc k ≡ suc k = omega arith in
    let (there, back) =
      loop-IsFirst n others d.wakeup_seq d.broadcast_seq 0 k (enter address d) h a
        (enter-IsOrdered n address d p total_small waiters_small) (omega arith) short in
    (
      λ r. there (r.0, r.1 ∙ ap (λ w. done (w, r.0)) (sym sleeps)),
      λ first. let r = back first in (r.0, r.1 ∙ ap (λ w. done (w, r.0)) sleeps),
    )
