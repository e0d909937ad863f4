-- ===== src/Examples/Conditions.antt =====
-- One waiter on a condition variable, and a signal.
use sync_perf.Base.{
  List, map, ◌↔◌, ◌+◌, ◌≡◌, ◌<◌, refl, arith, [], ◌∷◌, true, false, ltb, if◌then◌else◌, inc32,
}
use sync_perf.Mutex.State.{Call, done}
use sync_perf.Condvar.Wait.{
  Condvar, Wake, everyone, destroyer, enter, wait_on, wait_loop, cond_wait, condvar_cleanup,
  wakes_behind,
}
use sync_perf.Condvar.Relock.{IsHeld, IsBack, cond_wait_returns}
use sync_perf.Condvar.Departure.{
  Keeps, returns, cancelled, Empties, stop, next, wakes_destroyer, destroyer_woken_once,
}
use sync_perf.Examples.Data.{linux, alone, held_by_seven}
use sync_perf.Condvar.Order.{IsOrdered, Respects, state_after, wait_on-IsOrdered}
use sync_perf.Condvar.Returns.{Advances, IsFirst, wait_on_returns}

abbrev unused : Condvar
unused = record {
  futex = 0;
  total_seq = 0;
  wakeup_seq = 0;
  woken_seq = 0;
  nwaiters = 0;
  broadcast_seq = 0;
  mutex = 0;
}

-- A signal: one more wakeup, if a waiter is left that has none.
abbrev signal : Condvar → Condvar
signal d =
    if ltb d.wakeup_seq d.total_seq
    then record d { wakeup_seq = d.wakeup_seq + 1; futex = inc32 d.futex }
    else d

signal-Respects : Respects 1 signal
unfolding Respects
signal-Respects d p = record {
  woken = ground arith;
  sent = ground arith;
  total_fits = ground arith;
  waiters = ground arith;
  waiters_fit = ground arith;
}

unused-IsOrdered : IsOrdered 0 unused
unused-IsOrdered = record {
  woken = omega arith;
  sent = omega arith;
  total_fits = omega arith;
  waiters = omega arith;
  waiters_fit = omega arith;
}

-- The first sleep ends by itself, the second by the signal.
signalled : (d : Condvar) × (wait_on ((λ c. c) ∷ signal ∷ []) 640 unused ≡ done (2, d))
unfolding wait_on
signalled = (_, refl)

wait_on-IsOrdered_example :
    IsOrdered 0 signalled.0
    × (0 < 2)
    × (signalled.0.nwaiters + 2
        ≡ (state_after 2 ((λ c. c) ∷ signal ∷ []) (enter 640 unused)).nwaiters)
unfolding Respects
wait_on-IsOrdered_example =
    wait_on-IsOrdered 0 640 ((λ c. c) ∷ signal ∷ []) 2 unused signalled.0
      (λ d p. p, (signal-Respects, tt)) unused-IsOrdered (omega arith) (omega arith) signalled.1

signal-Advances : Advances signal
unfolding Advances
signal-Advances d = ground arith

-- It is at the second sleep that the signal has come.
wait_on_returns_example :
    ((d' : Condvar) × (wait_on ((λ c. c) ∷ signal ∷ []) 640 unused ≡ done (2, d')))
    ↔ IsFirst 0 0 1 ((λ c. c) ∷ signal ∷ []) (enter 640 unused)
unfolding Respects Advances
wait_on_returns_example =
    wait_on_returns 0 640 ((λ c. c) ∷ signal ∷ []) 1 unused (λ d p. p, (signal-Respects, tt))
      (λ d. omega arith, (signal-Advances, tt)) unused-IsOrdered (omega arith) (omega arith)
      (omega arith)

-- A waiter that has no wakeup yet.
abbrev waiting : Condvar
waiting = record unused { total_seq = 1; futex = 1; nwaiters = 2 }

waiting-IsOrdered : IsOrdered 1 waiting
waiting-IsOrdered = record {
  woken = omega arith;
  sent = omega arith;
  total_fits = omega arith;
  waiters = omega arith;
  waiters_fit = omega arith;
}

-- Thread 7 holds a recursive mutex, waits, and sleeps twice.
abbrev holder : Call
holder = alone (held_by_seven 1 1)

holder-IsHeld : IsHeld holder
holder-IsHeld = record { is_plain = omega arith; locked = omega arith; own = refl; once = refl }

cond_wait_returns_example :
    (c : Call) × (cond_wait linux ((λ c. c) ∷ signal ∷ []) (λ m. m) 640 unused holder
      ≡ done
          (record { code = 0; condvar = signalled.0; woken = wakes_behind signalled.0; call = c }))
    × IsBack 2 holder c
cond_wait_returns_example =
    cond_wait_returns linux ((λ c. c) ∷ signal ∷ []) (λ m. m) 640 2 unused signalled.0 holder
      holder-IsHeld (omega arith) (omega arith) (λ m left. left) signalled.1

-- Two waiters, and the variable marked for destruction.
abbrev condemned : Condvar
condemned = record unused {
  total_seq = 18446744073709551615;
  wakeup_seq = 2;
  nwaiters = 4;
  broadcast_seq = 2;
}

-- The first of them is cancelled, and the second sees the broadcast.
abbrev woken : List (List Wake)
woken = (everyone ∷ []) ∷ (destroyer ∷ []) ∷ []

emptied : Empties condemned woken
unfolding condvar_cleanup wait_loop Keeps
emptied =
    let one_left = record condemned { nwaiters = 2 } in
    let none_left = record condemned { nwaiters = 0 } in
    next condemned one_left (everyone ∷ []) ((destroyer ∷ []) ∷ [])
      (cancelled 0 condemned one_left (everyone ∷ []) holder refl refl)
      (next one_left none_left (destroyer ∷ []) []
        (returns ((λ d. d) ∷ []) 0 0 0 1 one_left none_left (λ d. (refl, refl), tt) refl)
        (stop none_left))

destroyer_woken_once_example : map wakes_destroyer woken ≡ false ∷ true ∷ []
destroyer_woken_once_example =
    destroyer_woken_once 1 0 emptied refl refl (omega arith) refl (omega arith)
