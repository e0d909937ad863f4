-- ===== src/Base/Maps.antt =====
-- Ordered maps as association lists: a new key goes before the first key that comes after it.
use Prim.Native.Nat.{ℕ}
use mathlib.Core.Path.{◌≡◌, refl}
use mathlib.Core.Logic.{◌↔◌}
use mathlib.Core.Bool.{Bool, true}
use mathlib.Core.Option.{Option, none, some}
use mathlib.Core.List.{List, [], ◌∷◌}
use native.Mathlib.Omega.{arith}
use sync_perf.Base.Tests.{if◌then◌else◌, ltb, ◌==◌}

pub record Key {ℓ} (K : Type ℓ) : Type ℓ where
  pub same : K → K → Bool
  pub before : K → K → Bool
  pub same_iff : (a b : K) → (same a b ≡ true) ↔ (a ≡ b)

pub ==_iff : (a b : ℕ) → ((a == b) ≡ true) ↔ (a ≡ b)
==_iff a b = (λ h. ground arith, λ h. ground arith)

instance abbrev pub nat_key : Key ℕ
nat_key = record { same = λ a b. a == b; before = λ a b. ltb a b; same_iff = ==_iff }

module _ {ℓ κ} {K : Type ℓ} {V : Type κ} ⦃key : Key K⦄ where
  unfoldable pub find : K → List (K × V) → Option V
  find k [] = none
  find k ((j, v) ∷ m) = if key.same j k then some v else find k m

  unfoldable pub put : K → V → List (K × V) → List (K × V)
  put k v [] = (k, v) ∷ []
  put k v ((j, w) ∷ m) =
      let rest = put k v m in
      if key.same j k
      then (k, v) ∷ m
      else if key.before k j
      then (k, v) ∷ (j, w) ∷ m
      else (j, w) ∷ rest

  -- A write through the pointer to a value that the map holds.
  unfoldable pub modify : K → (V → V) → List (K × V) → List (K × V)
  modify k f [] = []
  modify k f ((j, w) ∷ m) = if key.same j k then (j, f w) ∷ m else (j, w) ∷ modify k f m

  pub find-put :
      (j k : K) (v : V) (m : List (K × V))
      → find j (put k v m) ≡ (if key.same k j then some v else find j m)
  unfolding find put
  find-put j k v [] = refl
  find-put j k v ((i, w) ∷ m) =
      ground (arith, key.same_iff i k, key.same_iff i j, key.same_iff k j, find-put j k v m)

  pub find-modify :
      (j k : K) (f : V → V) (m : List (K × V)) (v : V)
      → find k m ≡ some v
      → find j (modify k f m) ≡ (if key.same k j then some (f v) else find j m)
  unfolding find modify
  find-modify j k f [] v h = cc
  find-modify j k f ((i, w) ∷ m) v h =
      ground (arith, key.same_iff i k, key.same_iff i j, key.same_iff k j, find-modify j k f m v)

  -- No key stands twice.
  abbrev pub Distinct : List (K × V) → Type κ
  Distinct [] = Unit
  Distinct ((k, v) ∷ m) = (find k m ≡ none) × Distinct m

  pub put-Distinct :
      (k : K) (v : V) (m : List (K × V)) → find k m ≡ none → Distinct m → Distinct (put k v m)
  unfolding find put
  put-Distinct k v [] h d = (refl, tt)
  put-Distinct k v ((j, w) ∷ m) h d =
      ground (arith, find-put j k v m, key.same_iff j k, key.same_iff k j, put-Distinct k v m)

  pub modify-Distinct :
      (k : K) (f : V → V) (m : List (K × V)) (v : V)
      → find k m ≡ some v
      → Distinct m
      → Distinct (modify k f m)
  unfolding find modify
  modify-Distinct k f [] v h d = tt
  modify-Distinct k f ((j, w) ∷ m) v h d =
      ground
        (arith, find-modify j k f m v, key.same_iff j k, key.same_iff k j, modify-Distinct k f m v)
