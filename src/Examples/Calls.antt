-- ===== src/Examples/Calls.antt =====
-- Lock, trylock and unlock calls on the plain kinds.
use sync_perf.Base.{◌≤◌, true, ◌≡◌, ◌≢◌, refl, arith, none, some, ℕ, ◌==◌, if◌then◌else◌}
use sync_perf.Mutex.State.{Call, Tpp, Self, done, ◌>>=◌}
use sync_perf.Mutex.LowLevel.{normal}
use sync_perf.Mutex.Lock.{mutex_lock}
use sync_perf.Mutex.Unlock.{mutex_unlock}
use sync_perf.Mutex.Trylock.{do_mutex_trylock}
use sync_perf.Mutex.Acquire.{mutex_lock-owns}
use sync_perf.Mutex.Pairing.{IsFree, acquired, lock-eq-trylock, lock-unlock}
use sync_perf.Mutex.Statistics.{Accounts, lock_statistics}
use sync_perf.Mutex.Nesting.{times, nested, recursive_nesting}
use sync_perf.Mutex.Priority.{change_priority}
use sync_perf.Mutex.Ceilings.Highest.{IsHighest}
use sync_perf.Mutex.Restore.{change_priority_restores}
use sync_perf.Mutex.Ceilings.{Exchanges, Keeps, change_priority-Keeps}
use sync_perf.Examples.Data.{linux, seven, alone, of_kind, waits_for_eight}

after_wait : (c' : Call) × (mutex_lock linux normal (waits_for_eight 0) ≡ done (0, c'))
unfolding mutex_lock
after_wait = (_, refl)

mutex_lock-owns_example : (after_wait.0.mutex.owner ≡ 7) × (after_wait.0.mutex.lock ≢ 0)
mutex_lock-owns_example =
    mutex_lock-owns linux normal (waits_for_eight 0) after_wait.0 (omega arith) (omega arith)
      (omega arith) after_wait.1

recursive_IsFree : IsFree (of_kind 1)
recursive_IsFree = record {
  is_plain = omega arith;
  unlocked = refl;
  unowned = refl;
  users = omega arith;
}

lock-eq-trylock_example :
    (mutex_lock linux normal (alone (of_kind 1)) ≡ done (0, acquired (alone (of_kind 1))))
    × (do_mutex_trylock linux (alone (of_kind 1)) ≡ done (0, acquired (alone (of_kind 1))))
lock-eq-trylock_example = lock-eq-trylock linux (alone (of_kind 1)) recursive_IsFree (omega arith)

lock-unlock_example :
    (mutex_lock linux normal (alone (of_kind 1)) >>= λ r. mutex_unlock linux r.1)
    ≡ done (0, alone (of_kind 1))
lock-unlock_example = lock-unlock linux (alone (of_kind 1)) recursive_IsFree refl (omega arith)

recursive_nesting_example :
    (times (mutex_lock linux normal) 3 (alone (of_kind 1)) ≡ some (nested 3 (alone (of_kind 1))))
    × (times (mutex_unlock linux) 3 (nested 3 (alone (of_kind 1))) ≡ some (alone (of_kind 1)))
recursive_nesting_example =
    recursive_nesting linux 3 (alone (of_kind 1)) recursive_IsFree refl refl (omega arith)
      (omega arith)

lock_statistics_example : Accounts true (waits_for_eight 0) after_wait.0
lock_statistics_example = lock_statistics linux (waits_for_eight 0) after_wait.0 0 refl after_wait.1

-- Thread 7 holds one mutex with the ceiling 10, and gives it up.
abbrev pub ceiling_ten : Tpp
ceiling_ten = record { priomax = 10; priomap = λ i. if i == 9 then 1 else 0 }

abbrev pub at_ten : Self
at_ten = record seven { tpp = some ceiling_ten }

pub ten-IsHighest : IsHighest 1 ceiling_ten
ten-IsHighest = record {
  bound = omega arith;
  none_above = λ i h. ground arith;
  held = λ h. omega arith;
  fits = λ i. ground arith;
}

ten_given_up : (r : ℕ × Self) × (change_priority linux (some 10) none at_ten ≡ done r)
unfolding change_priority
ten_given_up = (_, refl)

change_priority-Keeps_example : Keeps 1 (some 10) none ceiling_ten ten_given_up.0
change_priority-Keeps_example =
    change_priority-Keeps linux (some 10) none ceiling_ten at_ten ten_given_up.0 refl ten-IsHighest
      (omega arith, omega arith) ten_given_up.1

change_priority_restores_example :
    (r : ℕ × Self) × (r' : ℕ × Self) × (t₁ : Tpp) × (change_priority linux none (some 20) at_ten
      ≡ done r)
    × (change_priority linux (some 20) none r.1 ≡ done r')
    × (r.1.tpp ≡ some t₁)
    × Exchanges 1 none (some 20) ceiling_ten t₁
    × (20 ≤ t₁.priomax)
    × (r'.1.tpp ≡ some ceiling_ten)
change_priority_restores_example =
    change_priority_restores linux 20 ceiling_ten at_ten refl ten-IsHighest (omega arith)
      (omega arith) (omega arith)
