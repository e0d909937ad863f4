-- ===== src/Futex/Safety.antt =====
-- What the low-level lock promises in every reachable state.
use sync_perf.Base.{
  if◌then◌else◌, ◌==◌, ℕ, ◌≤◌, ◌<◌, ◌≡◌, ◌≢◌, ◌⊎◌, arith, total, weight-le-total, pair-le-total,
}
use native.Mathlib.Decide.{dec_lt}
use sync_perf.Futex.Protocol.{Pc, asleep, System, Reach, holds, sleeps, alerts}
use sync_perf.Futex.Invariant.{Reach-Inv}

apart :
    (n : ℕ) (pc : ℕ → Pc) (i j : ℕ)
    → i < j
    → j < n
    → holds (pc i) ≡ 1
    → holds (pc j) ≡ 1
    → total holds n pc ≤ 1
    → ⊥
apart n pc i j p q hi hj small = omega (arith, pair-le-total holds n pc i j p q)

-- In every reachable state of any number of threads that use lll_lock, lll_cond_lock, lll_trylock
-- and lll_unlock on one word, two threads below `n` that both hold the lock are the same thread, and
-- the word is not 0.
pub mutual_exclusion :
    {n : ℕ} {s : System}
    → Reach n s
    → (i j : ℕ) → i < n
    → j < n
    → holds (s.pc i) ≡ 1
    → holds (s.pc j) ≡ 1
    → (i ≡ j) × (s.word ≢ 0)
mutual_exclusion {n} {s} r i j lti ltj hi hj =
    let inv = Reach-Inv r in
    let one : total holds n s.pc ≤ 1 = omega arith in
    (
      elim (dec_lt i j) [
        | yes below ↦ absurd (apart n s.pc i j below ltj hi hj one)
        | no above ↦ elim (dec_lt j i) [
          | yes below ↦ absurd (apart n s.pc j i below lti hj hi one)
          | no same ↦ omega arith
        ]
      ],
      omega (arith, weight-le-total holds n s.pc i lti),
    )

-- In every reachable state the word says how many of the first `n` threads hold the lock: none if it
-- is 0, one otherwise; and it is 0, 1 or 2.
pub word_counts_holders :
    {n : ℕ} {s : System}
    → Reach n s
    → (total holds n s.pc ≡ (if s.word == 0 then 0 else 1)) × (s.word ≤ 2)
word_counts_holders {n} {s} r = let inv = Reach-Inv r in (ground arith, inv.small)

-- No wake-up is lost: while a thread below `n` sleeps in FUTEX_WAIT, either the word is 2 and some
-- thread holds the lock, so that its unlock takes the slow path and wakes a sleeper, or a thread
-- is about to wake one or to exchange the word again.
pub no_lost_wakeup :
    {n : ℕ} {s : System}
    → Reach n s
    → (j : ℕ) → j < n
    → s.pc j ≡ asleep
    → ((s.word ≡ 2) × (total holds n s.pc ≡ 1)) ⊎ (0 < total alerts n s.pc)
no_lost_wakeup {n} {s} r j lt e =
    let inv = Reach-Inv r in
    let here : 0 < total sleeps n s.pc = ground (arith, weight-le-total sleeps n s.pc j lt) in
    ground arith
