-- ===== src/Threads/Phases.antt =====
-- The phases of a run (source/xthread.h): the level and the multithreading flag against the
-- number of threads alive.
use sync_perf.Base.{
  ℕ, ◌+◌, ◌-◌, ◌%◌, ◌≤◌, ◌<◌, ◌≡◌, ◌≢◌, refl, Bool, false, arith, List, [], ◌∷◌, ltb, ◌==◌,
  if◌then◌else◌, ◌∙◌,
}
use sync_perf.Manager.Counters.{max_threads}
use sync_perf.Threads.Table.{
  Threads, Request, Result, ok, aborted, overrun, ◌>>=◌, >>=-eq-ok, ok-injective,
  alloc_thread_index, mark_thread_exit, initialize, max_alive_threads, max_thread_levels,
  thread_started, thread_returned,
}

-- What happens to the table, in order. The main thread does not exit, so an exit needs two threads.
pub data Event : Type 0 where
  create : Request → Event
  exit : (ℕ → ℕ) → Event
  started : (index self tid : ℕ) → Event
  returned : (index tsc : ℕ) → Event

abbrev pub happen : Event → Threads → Result Threads
happen (create r) s = alloc_thread_index r s
happen (exit tsc) s = if ltb 1 s.alive then mark_thread_exit tsc s else aborted
happen (started i p t) s = ok (thread_started i p t s)
happen (returned i t) s = ok (thread_returned i t s)

unfoldable pub run : List Event → Threads → Result Threads
run [] s = ok s
run (e ∷ es) s = happen e s >>= λ s'. run es s'

-- An account of the same events by the number of threads alone.
abbrev pub alive_after : Event → ℕ → ℕ
alive_after (create r) n = n + 1
alive_after (exit tsc) n = n - 1
alive_after _ n = n

-- A change between one thread and several.
abbrev pub is_switch : ℕ → ℕ → Bool
is_switch n m = if n == 1 then m == 2 else if n == 2 then m == 1 else false

unfoldable pub switches : List Event → ℕ → ℕ
switches [] n = 0
switches (e ∷ es) n =
    let rest = switches es (alive_after e n) in
    if is_switch n (alive_after e n) then rest + 1 else rest

pub record InPhase (s : Threads) : Type 0 where
  pub some_alive : 1 ≤ s.alive
  pub below : s.alive ≤ max_alive_threads
  pub numbered : s.alive ≤ s.thread_index
  pub fits : s.thread_index ≤ max_threads
  pub flag : s.multithreading ≡ ltb 1 s.alive
  pub parity : s.level % 2 ≡ (if ltb 1 s.alive then 1 else 0)

-- What one event does to the counters.
abbrev pub Advances : Event → Threads → Threads → Type 0
Advances e s s' =
    InPhase s'
    × (s'.alive ≡ alive_after e s.alive)
    × (s'.level ≡ s.level + (if is_switch s.alive (alive_after e s.alive) then 1 else 0))

create-Advances :
    (r : Request) (s s' : Threads)
    → InPhase s
    → alloc_thread_index r s ≡ ok s'
    → Advances (create r) s s'
unfolding alloc_thread_index
create-Advances r s s' p e = ground arith

exit-Advances :
    (tsc : ℕ → ℕ) (s s' : Threads)
    → InPhase s
    → 1 < s.alive
    → mark_thread_exit tsc s ≡ ok s'
    → Advances (exit tsc) s s'
unfolding mark_thread_exit
exit-Advances tsc s s' p several e = ground arith

started-Advances :
    (i p t : ℕ) (s : Threads) → InPhase s → Advances (started i p t) s (thread_started i p t s)
unfolding thread_started
started-Advances i p t s h = ground arith

returned-Advances :
    (i t : ℕ) (s : Threads) → InPhase s → Advances (returned i t) s (thread_returned i t s)
unfolding thread_returned
returned-Advances i t s h = ground arith

pub exit_happens :
    (tsc : ℕ → ℕ) (s s' : Threads)
    → happen (exit tsc) s ≡ ok s'
    → (1 < s.alive) × (mark_thread_exit tsc s ≡ ok s')
exit_happens tsc s s' h = ground arith

pub event-Advances : (e : Event) (s s' : Threads) → InPhase s → happen e s ≡ ok s' → Advances e s s'
event-Advances (create r) s s' p h = create-Advances r s s' p h
event-Advances (exit tsc) s s' p h =
    let (several, gone) = exit_happens tsc s s' h in exit-Advances tsc s s' p several gone
event-Advances (started i q t) s s' p h = rw (← ok-injective h) (started-Advances i q t s p)
event-Advances (returned i t) s s' p h = rw (← ok-injective h) (returned-Advances i t s p)

pub run-InPhase :
    (es : List Event) (s s' : Threads)
    → InPhase s
    → run es s ≡ ok s'
    → InPhase s' × (s'.level ≡ s.level + switches es s.alive)
unfolding run switches
run-InPhase [] s s' p h = rw (← ok-injective h) (p, omega arith)
run-InPhase (e ∷ es) s s' p h =
    let (s₁, step, rest) = >>=-eq-ok (happen e s) (run es) h in
    let (p₁, alive_eq, level_eq) = event-Advances e s s₁ p step in
    let (p', total_eq) = run-InPhase es s₁ s' p₁ rest in
    let counted = rw alive_eq at total_eq in (p', ground arith)

pub initialize-InPhase :
    (r : Request) (self : ℕ) (s : Threads)
    → initialize r self ≡ ok s
    → InPhase s × (s.alive ≡ 1) × (s.level ≡ 0)
unfolding initialize
initialize-InPhase r self s e = ground arith

-- In each state that a run of creations, exits, starts and returns of threads leads to from
-- `initialize`, at least one and at most 128 threads are alive, the multithreading flag says
-- whether several are, the level is even in a serial phase and odd in a parallel one, and it
-- counts the changes between one thread and several over the run.
pub level_counts_phases :
    (r : Request) (self : ℕ) (es : List Event) (s s' : Threads)
    → initialize r self ≡ ok s
    → run es s ≡ ok s'
    → InPhase s' × (s'.level ≡ switches es 1)
level_counts_phases r self es s s' e h =
    let (p, one, zero_level) = initialize-InPhase r self s e in
    let (p', level_eq) = run-InPhase es s s' p h in
    let counted = rw (one, zero_level) at level_eq in (p', counted ∙ omega arith)

-- A new thread fits, and so does the level after this one.
pub record HasRoom (s : Threads) : Type 0 where
  pub index_fits : s.thread_index < max_threads
  pub alive_fits : s.alive < max_alive_threads
  pub level_fits : s.level + 1 < max_thread_levels

not_aborted : (r : Request) (s : Threads) → HasRoom s → alloc_thread_index r s ≢ aborted
unfolding alloc_thread_index
not_aborted r s room = ground arith

not_overrun : (r : Request) (s : Threads) → HasRoom s → alloc_thread_index r s ≢ overrun
unfolding alloc_thread_index
not_overrun r s room = ground arith

returned_value : (x : Result Threads) → x ≢ aborted → x ≢ overrun → (s' : Threads) × (x ≡ ok s')
returned_value (ok s') _ _ = (s', refl)
returned_value aborted no_abort _ = absurd (no_abort refl)
returned_value overrun _ no_overrun = absurd (no_overrun refl)

-- In a phase state with room for a thread and for one more level, a creation returns a table that
-- is a phase state again, with one thread more alive, and the level counts a change of phase.
pub create_returns :
    (r : Request) (s : Threads)
    → InPhase s
    → HasRoom s
    → (s' : Threads) × (alloc_thread_index r s ≡ ok s') × Advances (create r) s s'
create_returns r s p room =
    let (s', e) =
      returned_value (alloc_thread_index r s) (not_aborted r s room) (not_overrun r s room) in
    (s', e, create-Advances r s s' p e)

-- The number of levels is not checked: when the last but one of the threads exits at the last level
-- of the table, the start of the next serial level is written behind the table's end.
pub levels_overrun :
    (tsc : ℕ → ℕ) (s : Threads)
    → InPhase s
    → s.alive ≡ 2
    → s.level ≡ 255
    → mark_thread_exit tsc s ≡ overrun
unfolding mark_thread_exit
levels_overrun tsc s p two last = ground arith
