-- ===== src/Futex/Examples.antt =====
-- Two threads on one lock word: one holds it, the other sleeps.
use sync_perf.Base.{[], ◌∷◌, ◌<◌, ◌≡◌, refl, ◌⊎◌, arith, total}
use sync_perf.Futex.Protocol.{
  asleep, owner, lock, lock_fails, swap_first, swap_takes, swap_waits, sleep, unlock_slow, clear,
  wake, System, act, Reach, start, later, holds, alerts,
}
use sync_perf.Futex.Safety.{no_lost_wakeup}
use sync_perf.Futex.Linear.{acquire, release, history, Follows, history-Follows}

-- Thread 0 takes the lock; thread 1 fails, exchanges the word for 2, and sleeps.
crowded : (s : System) × Reach 2 s × (s.pc 0 ≡ owner) × (s.pc 1 ≡ asleep) × (s.word ≡ 2)
crowded = (
  _,
  later
      (later
        (later
          (later (later start (act 0 (omega arith) (lock refl)))
            (act 1 (omega arith) (lock_fails (omega arith))))
          (act 1 (omega arith) (swap_first (omega arith))))
        (act 1 (omega arith) (swap_waits (omega arith))))
      (act 1 (omega arith) (sleep refl)),
  refl,
  refl,
  refl,
)

no_lost_wakeup_example :
    ((crowded.0.word ≡ 2) × (total holds 2 crowded.0.pc ≡ 1)) ⊎ (0 < total alerts 2 crowded.0.pc)
no_lost_wakeup_example = no_lost_wakeup crowded.1 1 (omega arith) crowded.3

-- Thread 0 unlocks and wakes thread 1, which takes the lock.
handed_over : (s : System) × (r : Reach 2 s) × (history r ≡ acquire 1 ∷ release 0 ∷ acquire 0 ∷ [])
unfolding history crowded
handed_over = (
  _,
  later
      (later
        (later (later crowded.1 (act 0 (omega arith) (unlock_slow (omega arith))))
          (act 0 (omega arith) clear))
        (wake 0 1 (omega arith) (omega arith) refl refl))
      (act 1 (omega arith) (swap_takes refl)),
  refl,
)

history-Follows_example : Follows 2 (history handed_over.1) handed_over.0.pc
history-Follows_example = history-Follows handed_over.1
