-- ===== src/Threads/Times/Events.antt =====
-- The time that is accounted for before and after an event (source/xthread.h).
use sync_perf.Base.{
  ℕ, zero, suc, ◌+◌, ◌-◌, ◌<◌, ◌≤◌, ◌≡◌, refl, ap, ◌∙◌, arith, List, [], ◌∷◌, if◌then◌else◌, total,
}
use mathlib.Core.Path.{subst}
use native.Mathlib.Decide.{ℕ_discrete}
use sync_perf.Clock.{get_tsc, get_elapsed_cycle, elapsed_exact}
use sync_perf.Threads.Table.{Threads, LevelInfo, Request, ok, alloc_thread_index, mark_thread_exit}
use sync_perf.Threads.Phases.{
  Event, create, exit, started, returned, is_switch, alive_after, InPhase,
}
use sync_perf.Threads.Times.Switches.{
  Switched, Stayed, fork-Switched, create-Stayed, join-Switched, exit-Stayed,
}

-- The sum of the times of the first `n` levels.
abbrev pub time_of_levels : ℕ → Threads → ℕ
time_of_levels n s = total (λ (l : LevelInfo). l.elapse) n s.levels

pub total_same :
    (n : ℕ) (f g : ℕ → LevelInfo)
    → ((i : ℕ) → i < n → (g i).elapse ≡ (f i).elapse)
    → total (λ (l : LevelInfo). l.elapse) n g ≡ total (λ (l : LevelInfo). l.elapse) n f
unfolding total
total_same zero f g h = refl
total_same (suc n) f g h =
    let earlier = total_same n f g (λ i below. h i (omega arith)) in
    ground (arith, earlier, h n (omega arith))

-- The readings that an event stops a level at and starts the next at.
abbrev pub stop_of : Event → ℕ
stop_of (create r) = r.tsc 1
stop_of (exit tsc) = tsc 0
stop_of _ = 0

abbrev pub start_of : Event → ℕ
start_of (create r) = r.tsc 2
start_of (exit tsc) = tsc 1
start_of _ = 0

-- The time between the stop of one level and the start of the next: at an event, and over a run.
abbrev pub gap : Event → (alive : ℕ) → ℕ
gap e n = if is_switch n (alive_after e n) then start_of e - stop_of e else 0

unfoldable pub gaps : List Event → (alive : ℕ) → ℕ
gaps [] n = 0
gaps (e ∷ es) n = gap e n + gaps es (alive_after e n)

-- The readings of a run, from `now` to `stop`, do not go back, and fit into 64 bits.
unfoldable pub InOrder : List Event → (now stop : ℕ) → Type 0
InOrder [] now stop = (now ≤ stop) × (stop < 18446744073709551616)
InOrder (create r ∷ es) now stop = (now ≤ r.tsc 1) × (r.tsc 1 ≤ r.tsc 2) × InOrder es (r.tsc 2) stop
InOrder (exit tsc ∷ es) now stop = (now ≤ tsc 0) × (tsc 0 ≤ tsc 1) × InOrder es (tsc 1) stop
InOrder (started i p t ∷ es) now stop = InOrder es now stop
InOrder (returned i t ∷ es) now stop = InOrder es now stop

pub InOrder-le :
    (es : List Event) (now stop : ℕ)
    → InOrder es now stop
    → (now ≤ stop) × (stop < 18446744073709551616)
unfolding InOrder
InOrder-le [] now stop h = h
InOrder-le (create r ∷ es) now stop (a, b, h) =
    let (c, fits) = InOrder-le es (r.tsc 2) stop h in (omega arith, fits)
InOrder-le (exit tsc ∷ es) now stop (a, b, h) =
    let (c, fits) = InOrder-le es (tsc 1) stop h in (omega arith, fits)
InOrder-le (started i p t ∷ es) now stop h = InOrder-le es now stop h
InOrder-le (returned i t ∷ es) now stop h = InOrder-le es now stop h

-- The current level has run since the reading `since`, and the earlier ones, with `gone` between
-- them, since `origin`.
pub record OnTime (origin gone since : ℕ) (s : Threads) : Type 0 where
  pub begun : (s.levels s.level).start_time ≡ get_tsc since
  pub accounted : time_of_levels s.level s + gone + origin ≡ since

Switched-OnTime :
    (origin gone since stop start : ℕ) (s s' : Threads)
    → OnTime origin gone since s
    → Switched stop start s s'
    → since ≤ stop
    → stop ≤ start
    → stop < 18446744073709551616
    → OnTime origin (gone + (start - stop)) start s'
unfolding total
Switched-OnTime origin gone since stop start s s' t w a b fits =
    let same = total_same s.level s.levels s'.levels w.earlier in
    let spent : (s'.levels s.level).elapse ≡ stop - since =
      w.stopped
      ∙ ap (λ i. get_elapsed_cycle i (get_tsc stop)) t.begun
      ∙ elapsed_exact since stop a fits in
    record {
      begun = ap (λ n. (s'.levels n).start_time) w.next_level ∙ w.begun;
      accounted =
          ap (λ n. time_of_levels n s' + (gone + (start - stop)) + origin) w.next_level
          ∙ ground (arith, same, spent, t.accounted);
    }

Stayed-OnTime :
    (origin gone since : ℕ) (s s' : Threads)
    → OnTime origin gone since s
    → Stayed s s'
    → OnTime origin gone since s'
Stayed-OnTime origin gone since s s' t w = record {
  begun = ap (λ n. (s'.levels n).start_time) w.same_level ∙ w.begun ∙ t.begun;
  accounted =
      ap (λ n. time_of_levels n s' + gone + origin) w.same_level
      ∙ ap (λ n. n + gone + origin) (total_same s.level s.levels s'.levels w.earlier)
      ∙ t.accounted;
}

-- After an event of a run, with a rest of the run and of the readings.
pub record After (origin gone since now : ℕ) (e : Event) (s s' : Threads) : Type 0 where
  pub since' : ℕ
  pub on_time : OnTime origin (gone + gap e s.alive) since' s'
  pub not_later : since' ≤ now

pub create-After :
    (origin gone since now : ℕ) (r : Request) (s s' : Threads)
    → InPhase s
    → OnTime origin gone since s
    → since ≤ now
    → now ≤ r.tsc 1
    → r.tsc 1 ≤ r.tsc 2
    → r.tsc 1 < 18446744073709551616
    → alloc_thread_index r s ≡ ok s'
    → After origin gone since (r.tsc 2) (create r) s s'
create-After origin gone since now r s s' p t before a b fits e = elim (ℕ_discrete s.alive 1) [
  | yes one ↦ record {
    since' = r.tsc 2;
    on_time =
        subst (λ g. OnTime origin (gone + g) (r.tsc 2) s') (ground arith)
          (Switched-OnTime origin gone since (r.tsc 1) (r.tsc 2) s s' t (fork-Switched r s s' one e)
            (omega arith) b fits);
    not_later = omega arith;
  }
  | no several ↦ record {
    since' = since;
    on_time =
        subst (λ g. OnTime origin g since s') (ground (arith, p.some_alive))
          (Stayed-OnTime origin gone since s s' t
            (create-Stayed r s s' (omega (arith, p.some_alive)) e));
    not_later = omega arith;
  }
]

pub exit-After :
    (origin gone since now : ℕ) (tsc : ℕ → ℕ) (s s' : Threads)
    → OnTime origin gone since s
    → since ≤ now
    → now ≤ tsc 0
    → tsc 0 ≤ tsc 1
    → tsc 0 < 18446744073709551616
    → 1 < s.alive
    → mark_thread_exit tsc s ≡ ok s'
    → After origin gone since (tsc 1) (exit tsc) s s'
exit-After origin gone since now tsc s s' t before a b fits several e =
    elim (ℕ_discrete s.alive 2) [
      | yes two ↦ record {
        since' = tsc 1;
        on_time =
            subst (λ g. OnTime origin (gone + g) (tsc 1) s') (ground arith)
              (Switched-OnTime origin gone since (tsc 0) (tsc 1) s s' t
                (join-Switched tsc s s' two e) (omega arith) b fits);
        not_later = omega arith;
      }
      | no more ↦ record {
        since' = since;
        on_time =
            subst (λ g. OnTime origin g since s') (ground arith)
              (Stayed-OnTime origin gone since s s' t (exit-Stayed tsc s s' (omega arith) e));
        not_later = omega arith;
      }
    ]

-- The levels and their times stay when a thread starts or returns.
pub untouched-OnTime :
    (origin gone since : ℕ) (e : Event) (s s' : Threads)
    → s'.level ≡ s.level
    → s'.levels ≡ s.levels
    → OnTime origin gone since s
    → OnTime origin gone since s'
untouched-OnTime origin gone since e s s' level levels t = record {
  begun = ground (arith, t.begun, level, levels);
  accounted =
      ap (λ n. time_of_levels n s' + gone + origin) level
      ∙ ap (λ (f : ℕ → LevelInfo). total (λ (l : LevelInfo). l.elapse) s.level f + gone + origin)
          levels
      ∙ t.accounted;
}
