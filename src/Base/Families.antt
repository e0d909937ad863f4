-- ===== src/Base/Families.antt =====
-- Families indexed by numbers: an array, or the threads of a system. Update at one index, and
-- sums over the first indices.
use Prim.Native.Nat.{ℕ, zero, suc, ◌+◌, ◌≤◌, ◌<◌}
use native.Mathlib.Omega.{arith}
use mathlib.Core.Path.{refl, ◌≡◌}
use native.Mathlib.Decide.{dec_lt}
use sync_perf.Base.Tests.{◌==◌, if◌then◌else◌}

abbrev pub update {ℓ} : {A : Type ℓ} → (ℕ → A) → ℕ → A → ℕ → A
update fam i x j = if i == j then x else fam j

module _ {ℓ} {A : Type ℓ} (weight : A → ℕ) where
  unfoldable pub total : ℕ → (ℕ → A) → ℕ
  total zero fam = 0
  total (suc bound) fam = total bound fam + weight (fam bound)

  total_beyond :
      (bound : ℕ) (fam : ℕ → A) (i : ℕ) (x : A)
      → bound ≤ i
      → total bound (update fam i x) ≡ total bound fam
  unfolding total
  total_beyond zero fam i x h = refl
  total_beyond (suc bound) fam i x h = ground (arith, total_beyond bound fam i x)

  -- A write at an index below the bound moves the sum by the change of weight.
  pub total-update :
      (bound : ℕ) (fam : ℕ → A) (i : ℕ) (x : A)
      → i < bound
      → total bound (update fam i x) + weight (fam i) ≡ total bound fam + weight x
  unfolding total
  total-update zero fam i x h = absurd (omega arith)
  total-update (suc bound) fam i x h = elim (dec_lt i bound) [
    | yes below ↦ ground (arith, total-update bound fam i x below)
    | no last ↦ ground (arith, total_beyond bound fam i x)
  ]

  pub weight-le-total :
      (bound : ℕ) (fam : ℕ → A) (i : ℕ) → i < bound → weight (fam i) ≤ total bound fam
  unfolding total
  weight-le-total zero fam i h = absurd (omega arith)
  weight-le-total (suc bound) fam i h = elim (dec_lt i bound) [
    | yes below ↦ omega (arith, weight-le-total bound fam i below)
    | no last ↦ ground arith
  ]

  -- Two indices of positive weight make the sum at least two.
  pub pair-le-total :
      (bound : ℕ) (fam : ℕ → A) (i j : ℕ)
      → i < j
      → j < bound
      → weight (fam i) + weight (fam j) ≤ total bound fam
  unfolding total
  pair-le-total zero fam i j p q = absurd (omega arith)
  pair-le-total (suc bound) fam i j p q = elim (dec_lt j bound) [
    | yes below ↦ omega (arith, pair-le-total bound fam i j p below)
    | no last ↦ ground (arith, weight-le-total bound fam i)
  ]

  pub total-eq-zero :
      (bound : ℕ) (fam : ℕ → A) → ((i : ℕ) → i < bound → weight (fam i) ≡ 0) → total bound fam ≡ 0
  unfolding total
  total-eq-zero zero fam h = refl
  total-eq-zero (suc bound) fam h =
      omega (arith, total-eq-zero bound fam (λ i lt. h i (omega arith)), h bound (omega arith))

  pub total-le : ((x : A) → weight x ≤ 1) → (bound : ℕ) (fam : ℕ → A) → total bound fam ≤ bound
  unfolding total
  total-le small zero fam = omega arith
  total-le small (suc bound) fam = omega (arith, small (fam bound), total-le small bound fam)
