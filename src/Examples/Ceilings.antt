-- ===== src/Examples/Ceilings.antt =====
-- A mutex with the ceiling 20, which the thread 7 locks while it holds the ceiling 10.
use sync_perf.Base.{ℕ, ◌≡◌, refl, arith, true, none, some}
use sync_perf.Mutex.Kinds.{decode}
use sync_perf.Mutex.State.{Self, Call, done}
use sync_perf.Mutex.LowLevel.{normal}
use sync_perf.Mutex.Priority.{current_priority, change_priority}
use sync_perf.Mutex.Lock.{mutex_lock}
use sync_perf.Mutex.Unlock.{mutex_unlock}
use sync_perf.Mutex.Protected.{IsFreeProtected, Takes, locked, protected_lock_unlock}
use sync_perf.Mutex.Failures.{mutex_lock_fails}
use sync_perf.Examples.Data.{linux, alone, of_kind}
use sync_perf.Examples.Calls.{ceiling_ten, at_ten, ten-IsHighest}

abbrev ceiling_twenty : Call
ceiling_twenty = record (alone (record (of_kind 64) { lock = 10485760 })) { self = at_ten }

twenty-IsFreeProtected : IsFreeProtected ceiling_twenty.mutex
twenty-IsFreeProtected = record {
  is_protected = refl;
  unlocked = refl;
  unowned = refl;
  users = omega arith;
}

-- The thread runs at priority 0.
abbrev scheduled : Self
scheduled = record at_ten { sched_set = true; policy_set = true }

raised : (s : Self) × (change_priority linux none (some 20) scheduled ≡ done (0, s))
unfolding change_priority
raised = (_, refl)

twenty-Takes : Takes linux 20 at_ten raised.0
unfolding current_priority
twenty-Takes = record {
  priority = 0;
  scheduled = scheduled;
  known = refl;
  not_above = omega arith;
  change = raised.1;
}

protected_lock_unlock_example :
    (code : ℕ) × (s : Self) × (mutex_lock linux normal ceiling_twenty
      ≡ done (0, locked ceiling_twenty raised.0))
    × (mutex_unlock linux (locked ceiling_twenty raised.0)
        ≡ done (
          code,
          record ceiling_twenty { mutex = record (ceiling_twenty.mutex) { count = 1 }; self = s },
        ))
    × (s.tpp ≡ some ceiling_ten)
unfolding twenty-Takes
protected_lock_unlock_example =
    protected_lock_unlock linux ceiling_twenty raised.0 ceiling_ten twenty-IsFreeProtected
      twenty-Takes refl ten-IsHighest (omega arith) (omega arith) (omega arith)

-- The thread runs at priority 30.
abbrev too_high_for_twenty : Call
too_high_for_twenty = record ceiling_twenty { self = record scheduled { sched_priority = 30 } }

refused : (d : Call) × (mutex_lock linux normal too_high_for_twenty ≡ done (22, d))
unfolding mutex_lock
refused = (_, refl)

mutex_lock_fails_example :
    (refused.0.mutex ≡ too_high_for_twenty.mutex)
    × ((refused.0.stat ≡ too_high_for_twenty.stat)
        × (refused.0.conflicts ≡ too_high_for_twenty.conflicts))
unfolding decode
mutex_lock_fails_example =
    mutex_lock_fails linux normal too_high_for_twenty refused.0 22 refl refused.1 (omega arith)
