-- ===== src/Futex/Invariant.antt =====
-- The word tells whether a thread holds the lock, and no sleeper is forgotten: true at the start,
-- and kept by every step.
use sync_perf.Base.{
  ℕ, ◌+◌, ◌≤◌, ◌<◌, min, ◌≡◌, refl, ◌≢◌, ◌⊎◌, arith, update, total, total-update, weight-le-total,
  total-eq-zero,
}
use sync_perf.Futex.Protocol.{
  Pc, idle, asleep, swapping, notifying, Move, lock, cond_lock, lock_fails, trylock_fails,
  wait_first, swap_first, sleep, wait_fails, interrupted, swap_takes, swap_waits, unlock,
  unlock_slow, clear, System, Step, act, wake, wake_none, init, Reach, start, later, holds, sleeps,
  alerts,
}

pub record Inv (n w : ℕ) (pc : ℕ → Pc) : Type 0 where
  pub small : w ≤ 2
  pub held : total holds n pc ≡ min w 1
  pub watched : 0 < total sleeps n pc → (w ≡ 2) ⊎ (0 < total alerts n pc)

-- How the three sums move when thread `i` goes from `p` to `p'`.
record Mover (n : ℕ) (pc pc' : ℕ → Pc) (p p' : Pc) : Type 0 where
  holders : total holds n pc' + holds p ≡ total holds n pc + holds p'
  sleepers : total sleeps n pc' + sleeps p ≡ total sleeps n pc + sleeps p'
  alerted : total alerts n pc' + alerts p ≡ total alerts n pc + alerts p'
  own : holds p ≤ total holds n pc
  own_alert : alerts p ≤ total alerts n pc

mover :
    (n : ℕ) (pc : ℕ → Pc) (i : ℕ) (p p' : Pc) → i < n → pc i ≡ p → Mover n pc (update pc i p') p p'
mover n pc i p p' lt e = record {
  holders = ground (arith, total-update holds n pc i p' lt);
  sleepers = ground (arith, total-update sleeps n pc i p' lt);
  alerted = ground (arith, total-update alerts n pc i p' lt);
  own = ground (arith, weight-le-total holds n pc i lt);
  own_alert = ground (arith, weight-le-total alerts n pc i lt);
}

Move-Inv :
    {n w w' : ℕ} {pc pc' : ℕ → Pc} {p p' : Pc}
    → Inv n w pc
    → Move w p w' p'
    → Mover n pc pc' p p'
    → Inv n w' pc'
Move-Inv inv (lock g) f = ground arith
Move-Inv inv (cond_lock g) f = ground arith
Move-Inv inv (lock_fails g) f = ground arith
Move-Inv inv (trylock_fails g) f = ground arith
Move-Inv inv (wait_first g) f = ground arith
Move-Inv inv (swap_first g) f = ground arith
Move-Inv inv (sleep g) f = ground arith
Move-Inv inv (wait_fails g) f = ground arith
Move-Inv inv interrupted f = ground arith
Move-Inv inv (swap_takes g) f = ground arith
Move-Inv inv (swap_waits g) f = ground arith
Move-Inv inv (unlock g) f = ground arith
Move-Inv inv (unlock_slow g) f = ground arith
Move-Inv inv clear f = ground arith

init-Inv : (n : ℕ) → Inv n init.word init.pc
init-Inv n = record {
  small = omega arith;
  held = omega (arith, total-eq-zero holds n (λ _. idle) (λ i lt. refl));
  watched = λ h. absurd (omega (arith, total-eq-zero sleeps n (λ _. idle) (λ i lt. refl)));
}

sleeps_of_ne : (p : Pc) → p ≢ asleep → sleeps p ≡ 0
sleeps_of_ne asleep h = absurd (h refl)
sleeps_of_ne _ h = refl

Step-Inv : {n : ℕ} {s t : System} → Step n s t → Inv n s.word s.pc → Inv n t.word t.pc
Step-Inv {n} {s} (act i {p = p'} lt mv) inv = Move-Inv inv mv (mover n s.pc i (s.pc i) p' lt refl)
Step-Inv {n} {s} (wake i j lti ltj ei ej) inv =
    let f = mover n s.pc i notifying idle lti ei in
    let g = mover n (update s.pc i idle) j asleep swapping ltj (ground arith) in ground arith
Step-Inv {n} {s} (wake_none i lt e quiet) inv =
    let f = mover n s.pc i notifying idle lt e in
    let none_asleep : total sleeps n s.pc ≡ 0 =
      total-eq-zero sleeps n s.pc (λ j ltj. sleeps_of_ne (s.pc j) (quiet j ltj)) in
    ground arith

-- The invariant holds in every reachable state.
pub Reach-Inv : {n : ℕ} {s : System} → Reach n s → Inv n s.word s.pc
Reach-Inv {n} start = init-Inv n
Reach-Inv (later r st) = Step-Inv st (Reach-Inv r)
