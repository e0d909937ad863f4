-- ===== src/Threads/Creation.antt =====
-- A creation of a thread against the index range of the current level (source/xthread.h).
use sync_perf.Base.{ℕ, ◌+◌, ◌≤◌, ◌<◌, ◌≡◌, ◌≢◌, arith, ap, sym, ◌∙◌}
use native.Mathlib.Decide.{ℕ_discrete}
use sync_perf.Threads.Table.{Threads, Request, ok, alloc_thread_index}

-- While several threads are alive, the current level's range ends at the last thread created. A
-- thread of the range records this level, but the first, which records the level before.
pub record InRange (s : Threads) : Type 0 where
  pub ends_last : 1 < s.alive → (s.levels s.level).end_index + 1 ≡ s.thread_index
  pub ordered : 1 < s.alive → (s.levels s.level).begin_index ≤ (s.levels s.level).end_index
  pub first : 1 < s.alive → (s.infos (s.levels s.level).begin_index).level_index + 1 ≡ s.level
  pub others :
      (i : ℕ)
      → 1 < s.alive
      → (s.levels s.level).begin_index < i
      → i ≤ (s.levels s.level).end_index
      → (s.infos i).level_index ≡ s.level

-- What a creation does to the recorded levels and to the range of the current one.
record Widens (s s' : Threads) : Type 0 where
  counted : s'.thread_index ≡ s.thread_index + 1
  new_level : (s'.infos s.thread_index).level_index ≡ s.level
  old_levels : (i : ℕ) → i ≢ s.thread_index → (s'.infos i).level_index ≡ (s.infos i).level_index
  new_phase :
      s.alive ≡ 1
      → (s'.level ≡ s.level + 1)
        × ((s'.levels s'.level).begin_index ≡ s.thread_index)
        × ((s'.levels s'.level).end_index ≡ s.thread_index)
  same_phase :
      1 < s.alive
      → (s'.level ≡ s.level)
        × ((s'.levels s'.level).begin_index ≡ (s.levels s.level).begin_index)
        × ((s.levels s.level).end_index < s.thread_index
            → (s'.levels s'.level).end_index ≡ s.thread_index)

create-Widens :
    (r : Request) (s s' : Threads) → 1 ≤ s.alive → alloc_thread_index r s ≡ ok s' → Widens s s'
unfolding alloc_thread_index
create-Widens r s s' one e = record {
  counted = ground arith;
  new_level = ground arith;
  old_levels = λ i h. ground arith;
  new_phase = λ h. ground arith;
  same_phase = λ h. (ground arith, ground arith, λ l. ground arith);
}

new_phase-InRange : (s s' : Threads) → s.alive ≡ 1 → Widens s s' → InRange s'
new_phase-InRange s s' single w =
    let (level_eq, begins, ends) = w.new_phase single in
    record {
      ends_last = λ _. ap (λ i. i + 1) ends ∙ sym w.counted;
      ordered = λ _. omega (arith, begins, ends);
      first = λ _.
          ap (λ i. (s'.infos i).level_index + 1) begins
          ∙ ap (λ l. l + 1) w.new_level
          ∙ sym level_eq;
      others = λ i _ above upto. absurd (omega (arith, begins, ends, above, upto));
    }

same_phase-InRange : (s s' : Threads) → 1 < s.alive → InRange s → Widens s s' → InRange s'
same_phase-InRange s s' several p w =
    let (level_eq, begins, widened) = w.same_phase several in
    let last = p.ends_last several in
    let ends = widened (omega (arith, last)) in
    let sorted = p.ordered several in
    record {
      ends_last = λ _. ap (λ i. i + 1) ends ∙ sym w.counted;
      ordered = λ _. omega (arith, begins, ends, last, sorted);
      first = λ _.
          ap (λ i. (s'.infos i).level_index + 1) begins
          ∙ ap (λ l. l + 1) (w.old_levels _ (omega (arith, last, sorted)))
          ∙ p.first several
          ∙ sym level_eq;
      others = λ i _ above upto. elim (ℕ_discrete i s.thread_index) [
        | yes new ↦ ap (λ j. (s'.infos j).level_index) new ∙ w.new_level ∙ sym level_eq
        | no old ↦
            w.old_levels i old
            ∙ p.others i several (omega (arith, begins, above))
                (omega (arith, ends, upto, last, old))
            ∙ sym level_eq
      ];
    }

pub create-InRange :
    (r : Request) (s s' : Threads)
    → 1 ≤ s.alive
    → InRange s
    → alloc_thread_index r s ≡ ok s'
    → InRange s'
create-InRange r s s' one p e =
    let w = create-Widens r s s' one e in
    elim (ℕ_discrete s.alive 1) [
      | yes single ↦ new_phase-InRange s s' single w
      | no several ↦ same_phase-InRange s s' (omega arith) p w
    ]
