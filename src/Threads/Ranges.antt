-- ===== src/Threads/Ranges.antt =====
-- The index range of a parallel level against the level that each thread records
-- (source/xthread.h).
use sync_perf.Base.{
  if◌then◌else◌, ◌==◌, eq→==, ne→==, ◌≤◌, ℕ, ◌+◌, ◌<◌, ◌≡◌, refl, arith, List, [], ◌∷◌, ap, sym,
  ◌∙◌,
}
use native.Mathlib.Decide.{ℕ_discrete}
use sync_perf.Threads.Table.{
  Threads, Request, ok, >>=-eq-ok, ok-injective, mark_thread_exit, initialize, thread_started,
  thread_returned,
}
use sync_perf.Threads.Creation.{InRange, create-InRange}
use sync_perf.Threads.Phases.{
  Event, create, exit, started, returned, happen, run, exit_happens, InPhase, event-Advances,
  initialize-InPhase,
}

-- All that the ranges are about is as before.
record IsSame (s s' : Threads) : Type 0 where
  was_several : 1 < s.alive
  same_levels : s'.levels ≡ s.levels
  same_level : s'.level ≡ s.level
  same_index : s'.thread_index ≡ s.thread_index
  same_infos : (i : ℕ) → (s'.infos i).level_index ≡ (s.infos i).level_index

same_current : (s s' : Threads) → IsSame s s' → s'.levels s'.level ≡ s.levels s.level
same_current s s' k = ap (λ f. f s'.level) k.same_levels ∙ ap s.levels k.same_level

same-InRange : (s s' : Threads) → (1 < s'.alive → IsSame s s') → InRange s → InRange s'
same-InRange s s' same p = record {
  ends_last = λ h.
      let k = same h in
      ap (λ l. l.end_index + 1) (same_current s s' k)
      ∙ p.ends_last k.was_several
      ∙ sym k.same_index;
  ordered = λ h. let k = same h in rw (same_current s s' k) (p.ordered k.was_several);
  first = λ h.
      let k = same h in
      ap (λ l. (s'.infos l.begin_index).level_index + 1) (same_current s s' k)
      ∙ ap (λ l. l + 1) (k.same_infos _)
      ∙ p.first k.was_several
      ∙ sym k.same_level;
  others = λ i h above upto.
      let k = same h in
      k.same_infos i
      ∙ p.others i k.was_several (rw (same_current s s' k) at above)
          (rw (same_current s s' k) at upto)
      ∙ sym k.same_level;
}

-- An exit that leaves several threads changes only their number.
exit-IsSame :
    (tsc : ℕ → ℕ) (s s' : Threads)
    → 1 < s.alive
    → mark_thread_exit tsc s ≡ ok s'
    → 1 < s'.alive
    → IsSame s s'
unfolding mark_thread_exit
exit-IsSame tsc s s' several e left = record {
  was_several = several;
  same_levels = ground arith;
  same_level = ground arith;
  same_index = ground arith;
  same_infos = λ i. ground arith;
}

started-IsSame :
    (i q t : ℕ) (s : Threads)
    → 1 < (thread_started i q t s).alive
    → IsSame s (thread_started i q t s)
unfolding thread_started
started-IsSame i q t s h = record {
  was_several = h;
  same_levels = refl;
  same_level = refl;
  same_index = refl;
  same_infos = λ j. ground arith;
}

returned-IsSame :
    (i t : ℕ) (s : Threads) → 1 < (thread_returned i t s).alive → IsSame s (thread_returned i t s)
unfolding thread_returned
returned-IsSame i t s h = record {
  was_several = h;
  same_levels = refl;
  same_level = refl;
  same_index = refl;
  same_infos = λ j. ground arith;
}

event-InRange :
    (e : Event) (s s' : Threads) → InPhase s → InRange s → happen e s ≡ ok s' → InRange s'
event-InRange (create r) s s' a p h = create-InRange r s s' a.some_alive p h
event-InRange (exit tsc) s s' a p h =
    let (several, gone) = exit_happens tsc s s' h in
    same-InRange s s' (exit-IsSame tsc s s' several gone) p
event-InRange (started i q t) s s' a p h =
    rw (← ok-injective h) (same-InRange s _ (started-IsSame i q t s) p)
event-InRange (returned i t) s s' a p h =
    rw (← ok-injective h) (same-InRange s _ (returned-IsSame i t s) p)

run-InRange :
    (es : List Event) (s s' : Threads) → InPhase s → InRange s → run es s ≡ ok s' → InRange s'
unfolding run
run-InRange [] s s' a p h = rw (← ok-injective h) p
run-InRange (e ∷ es) s s' a p h =
    let (s₁, step, rest) = >>=-eq-ok (happen e s) (run es) h in
    run-InRange es s₁ s' (event-Advances e s s₁ a step).0 (event-InRange e s s₁ a p step) rest

reached-InRange :
    (r : Request) (self : ℕ) (es : List Event) (s s' : Threads)
    → initialize r self ≡ ok s
    → run es s ≡ ok s'
    → InRange s'
reached-InRange r self es s s' e h =
    let (a, one, _) = initialize-InPhase r self s e in
    let p : InRange s = record {
      ends_last = λ l. absurd (omega (arith, one, l));
      ordered = λ l. absurd (omega (arith, one, l));
      first = λ l. absurd (omega (arith, one, l));
      others = λ i l. absurd (omega (arith, one, l));
    } in
    run-InRange es s s' a p h

-- In each state of a run with several threads alive, the range of the current level ends at the
-- last thread created, and each thread of the range records this level, except for the first, which
-- records the serial level before.
pub ranges_match_levels :
    (r : Request) (self : ℕ) (es : List Event) (s s' : Threads) (i : ℕ)
    → initialize r self ≡ ok s
    → run es s ≡ ok s'
    → 1 < s'.alive
    → (s'.levels s'.level).begin_index ≤ i
    → i ≤ (s'.levels s'.level).end_index
    → ((s'.levels s'.level).end_index + 1 ≡ s'.thread_index)
      × ((s'.infos i).level_index + (if i == (s'.levels s'.level).begin_index then 1 else 0)
          ≡ s'.level)
ranges_match_levels r self es s s' i e h several above upto =
    let p = reached-InRange r self es s s' e h in
    let first = s'.levels s'.level in
    (
      p.ends_last several,
      elim (ℕ_discrete i first.begin_index) [
        | yes same ↦ rw same (rw (eq→== _ _ refl) (p.first several))
        | no differ ↦ rw (ne→== _ _ differ) (ground (arith, p.others i several (omega arith) upto))
      ],
    )
