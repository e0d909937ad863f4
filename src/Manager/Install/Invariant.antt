-- ===== src/Manager/Install/Invariant.antt =====
-- What the word of a mutex, and the locals of a thread, say about one another.
use sync_perf.Base.{
  ℕ, ◌≤◌, ◌<◌, ◌≡◌, ◌≢◌, refl, sym, ◌∙◌, Option, none, some, arith, ◌==◌, Bool-cases, inl, inr,
}
use sync_perf.Manager.Install.Protocol.{
  Pc, created, rechecking, swapping, fetching, working, aborted, Shared, Move, unset, set, alloc,
  exhausted, expect, still_unset, set_meanwhile, swap_wins, swap_loses, fetch, fetch_fails, System,
  Step, act, Reach, start, later,
}

-- `first` entries were drawn before.
abbrev pub Fresh : ℕ → Shared → Pc → Type 0
Fresh first m (created r) = (first ≤ r) × (r < m.cur) × (r < m.total)
Fresh first m (rechecking r e) =
    (first ≤ r) × (r < m.cur) × (r < m.total) × ((e ≢ none) → m.word ≡ e)
Fresh first m (swapping r e) = (first ≤ r) × (r < m.cur) × (r < m.total) × (e ≡ none)
Fresh first m fetching = m.word ≢ none
Fresh first m (working k) = m.word ≡ some k
Fresh first m aborted = m.total < m.cur
Fresh first m _ = Unit

pub record Inv (first : ℕ) (m : Shared) (pc : ℕ → Pc) : Type 0 where
  pub grows : first ≤ m.cur
  pub drawn : (k : ℕ) → m.word ≡ some k → (first ≤ k) × (k < m.cur) × (k < m.total)
  pub fresh : (i : ℕ) → Fresh first m (pc i)

-- A step never takes a word back.
record Kept (m m' : Shared) : Type 0 where
  word_kept : m.word ≢ none → m'.word ≡ m.word
  cur_grows : m.cur ≤ m'.cur
  total_kept : m'.total ≡ m.total

expected_unset : (w e : Option ℕ) → (e ≢ none → w ≡ e) → w ≡ none → e ≡ none
expected_unset w none h g = refl
expected_unset w (some k) h g = let set : w ≡ some k = h (λ z. cc) in cc

module _ (first : ℕ) where
  Move-Kept : {m m' : Shared} {p p' : Pc} → Move m p m' p' → Fresh first m p → Kept m m'
  Move-Kept (alloc g) f = ground arith
  Move-Kept (exhausted g) f = ground arith
  Move-Kept (swap_wins g) f = record {
    word_kept = λ h. absurd (h (g ∙ f.3));
    cur_grows = omega arith;
    total_kept = refl;
  }
  Move-Kept _ f = record { word_kept = λ h. refl; cur_grows = omega arith; total_kept = refl }

  Kept-Fresh : {m m' : Shared} (p : Pc) → Kept m m' → Fresh first m p → Fresh first m' p
  Kept-Fresh (created r) k f = omega (arith, k.cur_grows, k.total_kept)
  Kept-Fresh (rechecking r e) k f = (
    f.0,
    omega (arith, k.cur_grows),
    omega (arith, k.total_kept),
    λ h. k.word_kept (λ z. h (sym (f.3 h) ∙ z)) ∙ f.3 h,
  )
  Kept-Fresh (swapping r e) k f = ground (arith, k.cur_grows, k.total_kept)
  Kept-Fresh fetching k f = ground (arith, k.word_kept f)
  Kept-Fresh (working j) k f = k.word_kept (λ z. cc) ∙ f
  Kept-Fresh aborted k f = omega (arith, k.cur_grows, k.total_kept)
  Kept-Fresh _ k f = tt

  Move-Fresh :
      {m m' : Shared} {p p' : Pc}
      → first ≤ m.cur
      → Move m p m' p'
      → Fresh first m p
      → Fresh first m' p'
  Move-Fresh h (unset g) f = tt
  Move-Fresh h (set g) f = g
  Move-Fresh h (alloc g) f = omega arith
  Move-Fresh h (exhausted g) f = omega arith
  Move-Fresh h expect f = (f.0, f.1, f.2, λ _. refl)
  Move-Fresh h (still_unset g) f = (f.0, f.1, f.2, expected_unset _ _ f.3 g)
  Move-Fresh h (set_meanwhile g) f = g
  Move-Fresh h (swap_wins g) f = λ e. cc
  Move-Fresh h (swap_loses g) f = λ e. g (e ∙ sym f.3)
  Move-Fresh h (fetch g) f = g
  Move-Fresh h (fetch_fails g) f = absurd (f g)

  Move-drawn :
      {m m' : Shared} {p p' : Pc}
      → Move m p m' p'
      → Fresh first m p
      → ((k : ℕ) → m.word ≡ some k → (first ≤ k) × (k < m.cur) × (k < m.total))
      → (k : ℕ) → m'.word ≡ some k
      → (first ≤ k) × (k < m'.cur) × (k < m'.total)
  Move-drawn (alloc g) f d k e = ground (arith, d k e)
  Move-drawn (exhausted g) f d k e = ground (arith, d k e)
  Move-drawn (swap_wins g) f d k e = ground arith
  Move-drawn _ f d k e = d k e

  Step-Inv : {n : ℕ} {s t : System} → Step n s t → Inv first s.mem s.pc → Inv first t.mem t.pc
  Step-Inv {n} {s} (act i {m} {next = p} mv lt) inv =
      let kept = Move-Kept mv (inv.fresh i) in
      record {
        grows = omega (arith, inv.grows, kept.cur_grows);
        drawn = Move-drawn mv (inv.fresh i) inv.drawn;
        fresh = λ j. elim (Bool-cases (i == j)) [
          | inl same ↦ rw same (Move-Fresh inv.grows mv (inv.fresh i))
          | inr other ↦ rw other (Kept-Fresh (s.pc j) kept (inv.fresh j))
        ];
      }

-- The invariant holds in every reachable state.
pub Reach-Inv : {n first total : ℕ} {s : System} → Reach n first total s → Inv first s.mem s.pc
Reach-Inv start = record { grows = omega arith; drawn = λ k e. cc; fresh = λ i. tt }
Reach-Inv {first} (later r st) = Step-Inv first st (Reach-Inv r)
