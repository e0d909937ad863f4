-- ===== src/Condvar/Departure.antt =====
-- The waiters of a condition variable that is being destroyed leave it (source/cond_wait.c).
use sync_perf.Base.{
  ℕ, zero, suc, ◌+◌, ◌-◌, ◌*◌, ◌<◌, ◌≡◌, ap, ◌∙◌, arith, Bool, true, false, List, [], ◌∷◌, All, map,
  length, Bool-cases, inl, inr, ◌==◌, u32,
}
use sync_perf.Mutex.State.{Call, done}
use sync_perf.Condvar.Wait.{
  Condvar, Wake, destroyer, everyone, one_waiter, was_last, wakes_behind, wait_loop, cleanup_waiter,
  condvar_cleanup, not_eligible,
}

-- The others wake the waiters, but none of them enters or leaves.
unfoldable pub Keeps : (Condvar → Condvar) → Type 0
Keeps f = (d : Condvar) → ((f d).total_seq ≡ d.total_seq) × ((f d).nwaiters ≡ d.nwaiters)

-- A waiter that is inside leaves, with what it wakes: its loop ends, or it is cancelled.
pub data Departs : Condvar → Condvar → List Wake → Type 0 where
  returns :
      (others : List (Condvar → Condvar)) (seq bc_seq waits waits' : ℕ) (d d' : Condvar)
      → All Keeps others
      → wait_loop others seq bc_seq waits d ≡ done (waits', d')
      → Departs d d' (wakes_behind d')
  cancelled :
      (bc_seq : ℕ) (d d' : Condvar) (wakes : List Wake) (c : Call)
      → (condvar_cleanup bc_seq d c).0 ≡ d'
      → (condvar_cleanup bc_seq d c).1 ≡ wakes
      → Departs d d' wakes

-- Waiters leave one after the other; the list has what each of them wakes.
pub data Empties : Condvar → List (List Wake) → Type 0 where
  stop : (d : Condvar) → Empties d []
  next :
      (d d' : Condvar) (wakes : List Wake) (rest : List (List Wake))
      → Departs d d' wakes
      → Empties d' rest
      → Empties d (wakes ∷ rest)

abbrev pub wakes_destroyer : List Wake → Bool
wakes_destroyer [] = false
wakes_destroyer (destroyer ∷ ws) = true
wakes_destroyer (everyone ∷ ws) = wakes_destroyer ws

-- `n` times false, and then true.
abbrev pub only_last : ℕ → List Bool
only_last zero = true ∷ []
only_last (suc n) = false ∷ only_last n

-- One waiter less.
record OneLess (d d' : Condvar) : Type 0 where
  total_eq : d'.total_seq ≡ d.total_seq
  left : d'.nwaiters ≡ u32 (d.nwaiters + 4294967296 - one_waiter)

loop-OneLess :
    (others : List (Condvar → Condvar)) (seq bc_seq waits waits' : ℕ) (d d' : Condvar)
    → All Keeps others
    → wait_loop others seq bc_seq waits d ≡ done (waits', d')
    → OneLess d d'
unfolding wait_loop Keeps
loop-OneLess [] seq bc_seq waits waits' d d' h e = cc
loop-OneLess (f ∷ fs) seq bc_seq waits waits' d d' h e =
    let (same_total, same_waiters) = h.0 d in
    elim (Bool-cases (bc_seq == (f d).broadcast_seq)) [
      | inr changed ↦ record { total_eq = ground arith; left = ground arith }
      | inl same ↦ elim (Bool-cases (not_eligible seq (f d))) [
        | inr free ↦ record { total_eq = ground arith; left = ground arith }
        | inl stay ↦
            let rest = loop-OneLess fs seq bc_seq (waits + 1) waits' (f d) d' h.1 (ground arith) in
            record {
              total_eq = rest.total_eq ∙ same_total;
              left = rest.left ∙ ap (λ w. u32 (w + 4294967296 - one_waiter)) same_waiters;
            }
      ]
    ]

cleanup-OneLess : (bc_seq : ℕ) (d : Condvar) → OneLess d (cleanup_waiter bc_seq d)
unfolding cleanup_waiter
cleanup-OneLess bc_seq d = record { total_eq = ground arith; left = ground arith }

Departs-OneLess :
    {d d' : Condvar} {wakes : List Wake}
    → Departs d d' wakes
    → OneLess d d' × (wakes_destroyer wakes ≡ was_last d')
unfolding condvar_cleanup
Departs-OneLess (returns others seq bc_seq waits waits' d d' h e) =
    (loop-OneLess others seq bc_seq waits waits' d d' h e, ground arith)
Departs-OneLess (cancelled bc_seq d d' wakes c state_eq wakes_eq) =
    (rw (← state_eq) (cleanup-OneLess bc_seq d), rw (← wakes_eq) (rw (← state_eq) (ground arith)))

-- When pthread_cond_destroy has marked the variable, with as many waiters inside as leave beside
-- the bit of the clock, and nobody enters, then however the waiters leave, by a wait that ends or
-- cancelled, and in whatever order, the last of them wakes the thread that destroys the variable,
-- and no other does.
pub destroyer_woken_once :
    {d : Condvar} {wakes : List (List Wake)} (n clock : ℕ)
    → Empties d wakes
    → length wakes ≡ suc n
    → d.total_seq ≡ 18446744073709551615
    → clock < one_waiter
    → d.nwaiters ≡ length wakes * one_waiter + clock
    → d.nwaiters < 4294967296
    → map wakes_destroyer wakes ≡ only_last n
destroyer_woken_once n clock (stop d) some_left marked small count fits =
    absurd (omega (arith, some_left))
destroyer_woken_once n clock (next d d' wakes [] p ps) some_left marked small count fits =
    let (less, woken) = Departs-OneLess p in
    let total = less.total_eq in
    let left = less.left in
    let last : n ≡ 0 = omega (arith, some_left) in rw last (ap (λ b. b ∷ []) (woken ∙ ground arith))
destroyer_woken_once zero clock (next d d' wakes (v ∷ rest) p ps) some_left marked small count
      fits =
    absurd (omega (arith, some_left))
destroyer_woken_once (suc n) clock (next d d' wakes (v ∷ rest) p ps) some_left marked small count
      fits =
    let (less, woken) = Departs-OneLess p in
    let total = less.total_eq in
    let left = less.left in
    let first : wakes_destroyer wakes ≡ false = woken ∙ ground arith in
    let after =
      destroyer_woken_once n clock ps (omega (arith, some_left)) (total ∙ marked) small
        (ground arith) (ground arith) in
    ap (λ b. b ∷ map wakes_destroyer (v ∷ rest)) first ∙ ap (λ l. false ∷ l) after
