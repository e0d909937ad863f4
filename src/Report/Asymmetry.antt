-- ===== src/Report/Asymmetry.antt =====
-- What `findAsymmetricLock` finds in the rates of one call stack (source/report.h).
use sync_perf.Base.{
  ◌≡◌, refl, arith, ◌↔◌, ◌⊎◌, inl, inr, Bool, true, false, List, [], ◌∷◌, All, if◌then◌else◌,
}
use sync_perf.Report.Contexts.{text_key, Reals, min_max, is_asymmetric}

-- What the report relies on: an order without NaNs, and that rounding keeps a difference of more
-- than ten when the ends move apart.
pub record IsRealOrder (reals : Reals) : Type 0 where
  pub below_self : (a : reals.Real) → reals.below a a ≡ false
  pub below_asym : (a b : reals.Real) → reals.below a b ≡ true → reals.below b a ≡ false
  pub le_trans :
      (a b c : reals.Real)
      → reals.below b a ≡ false
      → reals.below c b ≡ false
      → reals.below c a ≡ false
  pub over_ten_self : (a : reals.Real) → reals.over_ten a a ≡ false
  pub over_ten_mono :
      (a b c d : reals.Real)
      → reals.below a c ≡ false
      → reals.below d b ≡ false
      → reals.over_ten a b ≡ true
      → reals.over_ten c d ≡ true

abbrev pub In : {A : Type 0} → A → List A → Type 0
In x [] = ⊥
In x (y ∷ ys) = (x ≡ y) ⊎ In x ys

module _ (reals : Reals) where
  -- Two of the rates are more than ten apart.
  abbrev pub FarApart : List reals.Real → Type 0
  FarApart rates =
      (x : reals.Real) × (y : reals.Real) × In x rates × In y rates × (reals.over_ten x y ≡ true)

module _ (reals : Reals) (laws : IsRealOrder reals) where
  open reals use {Real, below, over_ten}

  abbrev Between : Real × Real → Real → Type 0
  Between ends r = (below r ends.0 ≡ false) × (below ends.1 r ≡ false)

  lower :
      (min r : Real)
      → (below min (if below r min then r else min) ≡ false)
        × (below r (if below r min then r else min) ≡ false)
  lower min r = ground (arith, laws.below_self r, laws.below_self min, laws.below_asym r min)

  upper :
      (max r : Real)
      → (below (if below max r then r else max) max ≡ false)
        × (below (if below max r then r else max) r ≡ false)
  upper max r = ground (arith, laws.below_self r, laws.below_self max, laws.below_asym max r)

  min_max-Between :
      (min max : Real) (rates : List Real)
      → (below min (min_max reals min max rates).0 ≡ false)
        × (below (min_max reals min max rates).1 max ≡ false)
        × All (Between (min_max reals min max rates)) rates
  unfolding min_max
  min_max-Between min max [] = (laws.below_self min, laws.below_self max, tt)
  min_max-Between min max (r ∷ rates) =
      let lo = if below r min then r else min in
      let hi = if below max r then r else max in
      let ends = min_max reals lo hi rates in
      let (p, q, rest) = min_max-Between lo hi rates in
      let (l₁, l₂) = lower min r in
      let (u₁, u₂) = upper max r in
      (
        laws.le_trans ends.0 lo min p l₁,
        laws.le_trans max hi ends.1 u₁ q,
        ((laws.le_trans ends.0 lo r p l₂, laws.le_trans r hi ends.1 u₂ q), rest),
      )

  In-if :
      (b : Bool) (x y : Real) (all : List Real) → In x all → In y all → In (if b then x else y) all
  In-if true x y all i j = i
  In-if false x y all i j = j

  min_max-In :
      (min max : Real) (rates all : List Real)
      → In min all
      → In max all
      → ((x : Real) → In x rates → In x all)
      → In (min_max reals min max rates).0 all × In (min_max reals min max rates).1 all
  unfolding min_max
  min_max-In min max [] all i a h = (i, a)
  min_max-In min max (r ∷ rates) all i a h =
      min_max-In (if below r min then r else min) (if below max r then r else max) rates all
        (In-if (below r min) r min all (h r (inl refl)) i)
        (In-if (below max r) r max all (h r (inl refl)) a) (λ x m. h x (inr m))

  All-In : (P : Real → Type 0) (x : Real) (xs : List Real) → All P xs → In x xs → P x
  All-In P x [] h i = absurd i
  All-In P x (y ∷ ys) h (inl e) = rw e h.0
  All-In P x (y ∷ ys) h (inr i) = All-In P x ys h.1 i

  pub is_asymmetric-FarApart :
      (rates : List Real) → (is_asymmetric reals rates ≡ true) ↔ FarApart reals rates
  unfolding is_asymmetric
  is_asymmetric-FarApart [] = (λ h. cc, λ (x, y, i, j, far). absurd i)
  is_asymmetric-FarApart (r ∷ []) =
      (λ h. cc, λ (x, y, i, j, far). ground (arith, laws.over_ten_self r))
  is_asymmetric-FarApart (r ∷ s ∷ rates) =
      let all = r ∷ s ∷ rates in
      let ends = min_max reals r r all in
      let (least, greatest) = min_max-In r r all all (inl refl) (inl refl) (λ x m. m) in
      let (_, _, between) = min_max-Between r r all in
      (
        λ h. (ends.0, ends.1, least, greatest, h),
        λ (x, y, i, j, far).
            laws.over_ten_mono x y ends.0 ends.1 (All-In (Between ends) x all between i).0
              (All-In (Between ends) y all between j).1 far,
      )
