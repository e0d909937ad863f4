-- ===== src/Report/Updates.antt =====
-- The map from call stacks to rates as a sequence of calls of `updateCallStackMap`
-- (source/report.h).
use sync_perf.Base.{
  ◌≡◌, refl, sym, ap, ◌∙◌, arith, Bool, ◌||◌, false, Bool-cases, inl, inr, Option, none, some, List,
  [], ◌∷◌, ◌++◌, if◌then◌else◌, find, find-put, find-modify, Distinct, put-Distinct,
  modify-Distinct,
}
use mathlib.Core.List.{append-nil, append_assoc}
use sync_perf.Report.Contexts.{
  Text, text_key, same_text, same_text_iff, Reals, CallStackMap, update_call_stack_map, add_rate,
  is_asymmetric, find_asymmetric_lock,
}

-- A text stands in a list.
abbrev pub lists : Text → List Text → Bool
lists k [] = false
lists k (j ∷ js) = same_text j k || lists k js

module _ (reals : Reals) where
  open reals use {Real}

  -- The rates that a sequence of calls of `updateCallStackMap` gives for one call stack.
  abbrev pub rates_of : Text → List (Text × Real) → List Real
  rates_of k [] = []
  rates_of k ((j, r) ∷ us) = let rest = rates_of k us in if same_text j k then r ∷ rest else rest

  unfoldable pub update_all : List (Text × Real) → CallStackMap reals → CallStackMap reals
  unfolding update_call_stack_map
  update_all [] m = m
  update_all ((k, r) ∷ us) m = update_all us (update_call_stack_map reals k r m)

  abbrev pub rates_or_none : Option (List Real) → List Real
  rates_or_none none = []
  rates_or_none (some rates) = rates

  abbrev pub rates_at : Text → CallStackMap reals → List Real
  rates_at k m = rates_or_none (find k m)

  find-add_rate :
      (j k : Text) (r : Real) (m : CallStackMap reals) (o : Option (List Real))
      → find k m ≡ o
      → find j (add_rate reals k r m o)
        ≡ (if same_text k j then some (rates_or_none o ++ r ∷ []) else find j m)
  find-add_rate j k r m none e = find-put j k (r ∷ []) m
  find-add_rate j k r m (some rates) e = find-modify j k (λ rs. rs ++ r ∷ []) m rates e

  add_rate-Distinct :
      (k : Text) (r : Real) (m : CallStackMap reals) (o : Option (List Real))
      → find k m ≡ o
      → Distinct m
      → Distinct (add_rate reals k r m o)
  add_rate-Distinct k r m none e d = put-Distinct k (r ∷ []) m e d
  add_rate-Distinct k r m (some rates) e d = modify-Distinct k (λ rs. rs ++ r ∷ []) m rates e d

  pub update_all-Distinct :
      (us : List (Text × Real)) (m : CallStackMap reals) → Distinct m → Distinct (update_all us m)
  unfolding update_all
  update_all-Distinct [] m d = d
  update_all-Distinct ((k, r) ∷ us) m d =
      update_all-Distinct us (update_call_stack_map reals k r m)
        (add_rate-Distinct k r m (find k m) refl d)

  rates_at-update :
      (j k : Text) (r : Real) (m : CallStackMap reals)
      → rates_at j (update_call_stack_map reals k r m) ≡ rates_at j m ++ rates_of j ((k, r) ∷ [])
  unfolding update_call_stack_map
  rates_at-update j k r m =
      ap rates_or_none (find-add_rate j k r m (find k m) refl) ∙ elim (Bool-cases (same_text k j)) [
        | inl same ↦ let e : k ≡ j = (same_text_iff k j).0 same in rw same (rw e refl)
        | inr other ↦ rw other (sym (append-nil (rates_at j m)))
      ]

  rates_of-cons :
      (j k : Text) (r : Real) (us : List (Text × Real))
      → rates_of j ((k, r) ∷ us) ≡ rates_of j ((k, r) ∷ []) ++ rates_of j us
  rates_of-cons j k r us = elim (Bool-cases (same_text k j)) [
    | inl same ↦ rw same refl
    | inr other ↦ rw other refl
  ]

  -- The map gives each call stack its rates in the order of the calls.
  pub rates_at-update_all :
      (j : Text) (us : List (Text × Real)) (m : CallStackMap reals)
      → rates_at j (update_all us m) ≡ rates_at j m ++ rates_of j us
  unfolding update_all
  rates_at-update_all j [] m = sym (append-nil (rates_at j m))
  rates_at-update_all j ((k, r) ∷ us) m =
      rates_at-update_all j us (update_call_stack_map reals k r m)
      ∙ ap (λ rs. rs ++ rates_of j us) (rates_at-update j k r m)
      ∙ append_assoc (rates_at j m) (rates_of j ((k, r) ∷ [])) (rates_of j us)
      ∙ ap (λ rs. rates_at j m ++ rs) (sym (rates_of-cons j k r us))

  pub lists-find_asymmetric_lock :
      (k : Text) (m : CallStackMap reals)
      → Distinct m
      → lists k (find_asymmetric_lock reals m) ≡ is_asymmetric reals (rates_at k m)
  unfolding find_asymmetric_lock find
  lists-find_asymmetric_lock k [] d = refl
  lists-find_asymmetric_lock k ((j, rates) ∷ m) d =
      ground (arith, same_text_iff j k, lists-find_asymmetric_lock k m d.1)
