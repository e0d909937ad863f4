-- ===== src/Condvar/Order.antt =====
-- The order of the sequence counters over a wait (source/cond_wait.c).
use sync_perf.Base.{
  zero, suc, Bool-cases, inl, inr, ℕ, ◌+◌, ◌*◌, ◌≤◌, ◌<◌, ◌≡◌, refl, arith, List, [], ◌∷◌, All,
  ◌==◌,
}
use sync_perf.Mutex.State.{done}
use sync_perf.Condvar.Wait.{
  Condvar, enter, inc64, leave, not_eligible, one_waiter, wait_loop, wait_on, cleanup_waiter,
}

-- Wakeups never exceed the waiters that came, and no more threads have woken than wakeups were sent;
-- `waiting` waiters are inside.
pub record IsOrdered (waiting : ℕ) (d : Condvar) : Type 0 where
  pub woken : d.woken_seq ≤ d.wakeup_seq
  pub sent : d.wakeup_seq ≤ d.total_seq
  pub total_fits : d.total_seq < 18446744073709551615
  pub waiters : waiting * one_waiter ≤ d.nwaiters
  pub waiters_fit : d.nwaiters < 4294967290

-- What the other threads do keeps the order, and the waiters that are inside stay.
unfoldable pub Respects : (waiting : ℕ) → (Condvar → Condvar) → Type 0
Respects waiting f = (d : Condvar) → IsOrdered waiting d → IsOrdered waiting (f d)

-- The variable after the first `k` actions of the other threads.
abbrev pub state_after : ℕ → List (Condvar → Condvar) → Condvar → Condvar
state_after zero others d = d
state_after (suc k) [] d = d
state_after (suc k) (f ∷ fs) d = state_after k fs (f d)

-- The wait has slept as often as the others have acted, and takes one waiter off what they left.
pub record IsLeft (n waits waits' : ℕ) (others : List (Condvar → Condvar)) (d d' : Condvar)
    : Type 0 where
  pub sleeps : ℕ
  pub slept : 0 < sleeps
  pub sleeps_eq : waits' ≡ waits + sleeps
  pub ordered : IsOrdered n d'
  pub place : d'.nwaiters + one_waiter ≡ (state_after sleeps others d).nwaiters

-- The last turn: `w` is the variable that the waiter leaves.
leave-IsLeft :
    (n waits waits' : ℕ) (f : Condvar → Condvar) (fs : List (Condvar → Condvar)) (d w d' : Condvar)
    → IsOrdered (n + 1) w
    → w.nwaiters ≡ (f d).nwaiters
    → (waits' ≡ waits + 1) × (d' ≡ leave w)
    → IsLeft n waits waits' (f ∷ fs) d d'
leave-IsLeft n waits waits' f fs d w d' q same (count, left) =
    let least = q.waiters in
    let most = q.waiters_fit in
    let woken = q.woken in
    let sent = q.sent in
    let total = q.total_fits in
    record {
      sleeps = 1;
      slept = omega arith;
      sleeps_eq = count;
      ordered = rw left (record {
        woken = ground arith;
        sent = ground arith;
        total_fits = ground arith;
        waiters = ground arith;
        waiters_fit = ground arith;
      });
      place = ground arith;
    }

pub loop-IsLeft :
    (n : ℕ) (others : List (Condvar → Condvar)) (seq bc_seq waits waits' : ℕ) (d d' : Condvar)
    → All (Respects (n + 1)) others
    → IsOrdered (n + 1) d
    → wait_loop others seq bc_seq waits d ≡ done (waits', d')
    → IsLeft n waits waits' others d d'
unfolding wait_loop Respects
loop-IsLeft n [] seq bc_seq waits waits' d d' h p e = cc
loop-IsLeft n (f ∷ fs) seq bc_seq waits waits' d d' h p e =
    let q = h.0 d p in
    elim (Bool-cases (bc_seq == (f d).broadcast_seq)) [
      | inr changed ↦ leave-IsLeft n waits waits' f fs d (f d) d' q refl (ground arith)
      | inl same ↦ elim (Bool-cases (not_eligible seq (f d))) [
        | inr free ↦
            leave-IsLeft n waits waits' f fs d (record (f d) { woken_seq = inc64 (f d).woken_seq })
              d'
              (record {
                woken = ground arith;
                sent = q.sent;
                total_fits = q.total_fits;
                waiters = q.waiters;
                waiters_fit = q.waiters_fit;
              })
              refl (ground arith)
        | inl stay ↦
            let rest =
              loop-IsLeft n fs seq bc_seq (waits + 1) waits' (f d) d' h.1 q (ground arith) in
            record {
              sleeps = suc rest.sleeps;
              slept = omega arith;
              sleeps_eq = omega (arith, rest.sleeps_eq);
              ordered = rest.ordered;
              place = rest.place;
            }
      ]
    ]

pub enter-IsOrdered :
    (n address : ℕ) (d : Condvar)
    → IsOrdered n d
    → d.total_seq < 18446744073709551614
    → d.nwaiters < 4294967280
    → IsOrdered (n + 1) (enter address d)
enter-IsOrdered n address d p total_small waiters_small =
    let woken = p.woken in
    let sent = p.sent in
    let least = p.waiters in
    record {
      woken = ground arith;
      sent = ground arith;
      total_fits = ground arith;
      waiters = ground arith;
      waiters_fit = ground arith;
    }

-- A wait that returns, with `n` other waiters inside and other threads that respect the order,
-- leaves the sequence counters in order and takes itself, and no one else, off the waiters that the
-- other threads' last action before it left, after at least one sleep. No counter may be about to
-- wrap.
pub wait_on-IsOrdered :
    (n address : ℕ) (others : List (Condvar → Condvar)) (waits : ℕ) (d d' : Condvar)
    → All (Respects (n + 1)) others
    → IsOrdered n d
    → d.total_seq < 18446744073709551614
    → d.nwaiters < 4294967280
    → wait_on others address d ≡ done (waits, d')
    → IsOrdered n d'
      × (0 < waits)
      × (d'.nwaiters + one_waiter ≡ (state_after waits others (enter address d)).nwaiters)
unfolding wait_on
wait_on-IsOrdered n address others waits d d' h p total_small waiters_small e =
    let entered = enter-IsOrdered n address d p total_small waiters_small in
    let left =
      loop-IsLeft n others d.wakeup_seq d.broadcast_seq 0 waits (enter address d) d' h entered e in
    let counted : waits ≡ left.sleeps = omega (arith, left.sleeps_eq) in
    (left.ordered, rw counted left.slept, rw counted left.place)

-- A waiter that is cancelled leaves the counters in order too, if, unless a broadcast has come
-- since its wait began, some waiter has not woken.
pub cleanup-IsOrdered :
    (n bc_seq : ℕ) (d : Condvar)
    → IsOrdered (n + 1) d
    → (bc_seq ≡ d.broadcast_seq → d.woken_seq < d.total_seq)
    → IsOrdered n (cleanup_waiter bc_seq d)
unfolding cleanup_waiter
cleanup-IsOrdered n bc_seq d p unwoken = ground arith
