-- ===== src/Mutex/Ceilings/Highest.antt =====
-- The highest of the ceilings that a thread holds (source/tpp.c).
use sync_perf.Base.{
  ℕ, zero, suc, ◌+◌, ◌-◌, ◌<◌, ◌≤◌, ◌≡◌, ◌≢◌, ◌⊎◌, refl, ap, ◌∙◌, arith, true, false, ◌&&◌,
  Bool-cases, inl, inr, Option, none, some, ◌==◌, dec32, update,
}
use native.Mathlib.Decide.{ℕ_discrete}
use sync_perf.Mutex.State.{Tpp}
use sync_perf.Mutex.Priority.{highest_below, raise, above, lower}

-- `priomax` is the highest ceiling that is held, or the one below the lowest if none is.
pub record IsHighest (lowest : ℕ) (t : Tpp) : Type 0 where
  pub bound : lowest ≤ t.priomax + 1
  pub none_above : (i : ℕ) → t.priomax < lowest + i → t.priomap i ≡ 0
  pub held : lowest ≤ t.priomax → t.priomap (t.priomax - lowest) ≢ 0
  pub fits : (i : ℕ) → t.priomap i < 4294967296

-- The ceiling that is to be given up is held.
abbrev pub Holds : (lowest : ℕ) → Tpp → Option ℕ → Type 0
Holds lowest t none = Unit
Holds lowest t (some p) = (lowest ≤ p) × (0 < t.priomap (p - lowest))

abbrev pub AtLeast : (lowest : ℕ) → Option ℕ → Type 0
AtLeast lowest none = Unit
AtLeast lowest (some p) = lowest ≤ p

pub raise-cases :
    (lowest : ℕ) (new : Option ℕ) (t : Tpp)
    → (raise lowest new t ≡ none) ⊎ ((t₁ : Tpp) × (raise lowest new t ≡ some t₁))
raise-cases lowest new t =
    elim (raise lowest new t) as (λ o. (o ≡ none) ⊎ ((t₁ : Tpp) × (o ≡ some t₁))) [
      | none ↦ inl refl
      | some t₁ ↦ inr (t₁, refl)
    ]

record Found (held : ℕ → ℕ) (lowest n h : ℕ) : Type 0 where
  bound : lowest ≤ h + 1
  below : h < lowest + n
  none_above : (i : ℕ) → i < n → h < lowest + i → held i ≡ 0
  there : lowest ≤ h → held (h - lowest) ≢ 0

highest_below-Found :
    (held : ℕ → ℕ) (lowest n : ℕ) → 0 < lowest → Found held lowest n (highest_below held lowest n)
unfolding highest_below
highest_below-Found held lowest zero pos = record {
  bound = omega arith;
  below = omega arith;
  none_above = λ i h k. absurd (omega arith);
  there = λ h. absurd (omega arith);
}
highest_below-Found held lowest (suc n) pos =
    let f = highest_below-Found held lowest n pos in
    elim (ℕ_discrete (held n) 0) [
      | yes free ↦ record {
        bound = ground (arith, f.bound);
        below = ground (arith, f.below);
        none_above = λ i h k. elim (ℕ_discrete i n) [
          | yes last ↦ ap held last ∙ free
          | no other ↦ f.none_above i (omega arith) (ground (arith, free))
        ];
        there = λ h. ground (arith, f.there);
      }
      | no taken ↦ record {
        bound = ground arith;
        below = ground arith;
        none_above = λ i h k. absurd (ground arith);
        there = λ h. ground arith;
      }
    ]

pub raise-IsHighest :
    (lowest : ℕ) (new : Option ℕ) (t t₁ : Tpp)
    → IsHighest lowest t
    → AtLeast lowest new
    → raise lowest new t ≡ some t₁
    → IsHighest lowest t₁
raise-IsHighest lowest none t t₁ h low e =
    let same : t ≡ t₁ = ap (λ (o : Option Tpp). elim o [ none ↦ t | some x ↦ x ]) e in rw (← same) h
raise-IsHighest lowest (some p) t t₁ h low e = record {
  bound = ground (arith, h.bound);
  none_above = λ i above. ground (arith, h.none_above i);
  held = λ l. ground (arith, h.held);
  fits = λ i. ground (arith, h.fits i);
}

-- What a raise leaves for the ceiling that is to be given up.
pub record Raised (lowest : ℕ) (new : Option ℕ) (t t₁ : Tpp) : Type 0 where
  pub not_less : t.priomax ≤ t₁.priomax
  pub more : (i : ℕ) → t.priomap i ≤ t₁.priomap i
  pub same_max : (p : ℕ) → above p new ≡ true → t.priomax ≡ p → t₁.priomax ≡ p
  pub new_max : (p : ℕ) → t₁.priomax ≡ p → t.priomax ≢ p → t.priomax < p
  pub twice :
      (p : ℕ)
      → lowest ≤ p
      → above p new ≡ false
      → t₁.priomax ≡ p
      → 0 < t.priomap (p - lowest)
      → 1 < t₁.priomap (p - lowest)

pub raise-Raised :
    (lowest : ℕ) (new : Option ℕ) (t t₁ : Tpp)
    → IsHighest lowest t
    → AtLeast lowest new
    → raise lowest new t ≡ some t₁
    → Raised lowest new t t₁
raise-Raised lowest none t t₁ h low e =
    let same : t ≡ t₁ = ap (λ (o : Option Tpp). elim o [ none ↦ t | some x ↦ x ]) e in
    rw (← same) (record {
      not_less = omega arith;
      more = λ i. omega arith;
      same_max = λ p a m. m;
      new_max = λ p m n. absurd (n m);
      twice = λ p l a m z. cc;
    })
raise-Raised lowest (some q) t t₁ h low e = record {
  not_less = ground arith;
  more = λ i. ground (arith, h.fits i);
  same_max = λ p a m. ground arith;
  new_max = λ p m n. ground arith;
  twice = λ p l a m z. ground (arith, h.fits (p - lowest));
}

pub lower-IsHighest :
    (lowest : ℕ) (previous new : Option ℕ) (t t₁ : Tpp)
    → 0 < lowest
    → IsHighest lowest t
    → IsHighest lowest t₁
    → Raised lowest new t t₁
    → Holds lowest t previous
    → IsHighest lowest (lower lowest t.priomax previous new t₁)
lower-IsHighest lowest none new t t₁ pos h h₁ r holds = h₁
lower-IsHighest lowest (some p) new t t₁ pos h h₁ r (low, some_held) =
    let held = update t₁.priomap (p - lowest) (dec32 (t₁.priomap (p - lowest))) in
    let test = (held (p - lowest) == 0) && ((t.priomax == p) && above p new) in
    let f = highest_below-Found held lowest (p - lowest) pos in
    let more = r.more (p - lowest) in
    let small = h₁.fits (p - lowest) in
    let quiet = h₁.none_above (p - lowest) in
    elim (Bool-cases test) [
      | inl yes_lower ↦ record {
        bound = ground (arith, f.bound);
        none_above = λ i k. ground (arith, f.none_above i, h₁.none_above i, r.same_max p);
        held = λ l. ground (arith, f.there, f.below);
        fits = λ i. ground (arith, h₁.fits i);
      }
      | inr no_lower ↦ record {
        bound = ground (arith, h₁.bound);
        none_above = λ i k. ground (arith, h₁.none_above i, quiet, more);
        held = λ l. ground (arith, h₁.held, r.twice p low, r.new_max p, h.none_above (p - lowest));
        fits = λ i. ground (arith, h₁.fits i);
      }
    ]
