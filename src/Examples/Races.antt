-- ===== src/Examples/Races.antt =====
-- Threads that race for the entry of a mutex, and threads on one lock word.
use sync_perf.Base.{ℕ, ◌≡◌, ◌≢◌, ◌≤◌, ◌<◌, refl, arith, some}
use sync_perf.Futex.Protocol
use sync_perf.Futex.Safety.{mutual_exclusion}
use sync_perf.Manager.Install.Protocol.{
  System, Reach, act, start, later, unset, alloc, exhausted, expect, still_unset, swap_wins, fetch,
  working, aborted,
}
use sync_perf.Manager.Install.Safety.{agreement}

-- Thread 0 takes the free lock word.
taken : (s : Protocol.System) × Protocol.Reach 2 s × (Protocol.holds (s.pc 0) ≡ 1)
taken = (_, Protocol.later Protocol.start (Protocol.act 0 (omega arith) (Protocol.lock refl)), refl)

mutual_exclusion_example : (◌≡◌ {A = ℕ} 0 0) × (taken.0.word ≢ 0)
mutual_exclusion_example = mutual_exclusion taken.1 0 0 (omega arith) (omega arith) taken.2 taken.2

-- Thread 0 makes the entry 3 of a pool of 10.
installed : (s : System) × Reach 2 3 10 s × (s.pc 0 ≡ working 3)
installed = (
  _,
  later
      (later
        (later
          (later
            (later (later start (act 0 (unset refl) (omega arith)))
              (act 0 (alloc (omega arith)) (omega arith)))
            (act 0 expect (omega arith)))
          (act 0 (still_unset refl) (omega arith)))
        (act 0 (swap_wins refl) (omega arith)))
      (act 0 (fetch refl) (omega arith)),
  refl,
)

agreement_example :
    (◌≡◌ {A = ℕ} 3 3)
    × (installed.0.mem.word ≡ some 3)
    × (3 ≤ 3)
    × (3 < installed.0.mem.cur)
    × (3 < installed.0.mem.total)
agreement_example = agreement installed.1 0 0 3 3 installed.2 installed.2

-- The pool of 10 is used up.
used_up : (s : System) × Reach 2 10 10 s × (s.pc 0 ≡ aborted)
used_up = (
  _,
  later (later start (act 0 (unset refl) (omega arith)))
      (act 0 (exhausted (omega arith)) (omega arith)),
  refl,
)
