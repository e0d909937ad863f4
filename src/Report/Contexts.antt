-- ===== src/Report/Contexts.antt =====
-- source/report.h: the text of a call stack, and the map from call stacks to conflict rates.
use sync_perf.Base.{
  ℕ, ◌≡◌, refl, arith, ◌↔◌, Bool, true, false, ◌||◌, not, ◌&&◌, Option, none, some, List, [], ◌∷◌,
  ◌++◌, ltb, ◌==◌, if◌then◌else◌, Key, find, put, modify,
}

-- `find_last_of ("/\\")` and the `substr` behind it: the whole line if there is no separator.
abbrev pub is_separator : ℕ → Bool
is_separator c = (c == b'/') || (c == b'\\')

unfoldable pub has_separator : List ℕ → Bool
has_separator [] = false
has_separator (c ∷ s) = is_separator c || has_separator s

unfoldable pub file_name : List ℕ → List ℕ
unfolding has_separator
file_name [] = []
file_name (c ∷ s) =
    let rest = file_name s in if has_separator s then rest else if is_separator c then s else c ∷ s

-- `erase (size () - 1)`; on an empty string the position is out of range, and the call throws.
unfoldable pub erase_last : List ℕ → Option (List ℕ)
erase_last [] = none
erase_last (c ∷ []) = some []
erase_last (c ∷ d ∷ s) = elim (erase_last (d ∷ s)) [ none ↦ none | some t ↦ some (c ∷ t) ]

-- `source_line[0] != '?'`; the terminating 0 of an empty string is another character.
abbrev pub is_known : List ℕ → Bool
is_known [] = true
is_known (c ∷ s) = not (c == b'?')

abbrev pub append_line : List ℕ → Option (List ℕ) → Option (List ℕ)
append_line stack_str none = none
append_line stack_str (some name) = some (stack_str ++ (name ++ b' ' ∷ []))

-- `get_call_stack_string`, over the addresses that it reads up to the first 0, where `exec` gives
-- the output of `addr2line` on an address; `none` where it throws.
unfoldable pub get_call_stack_string :
    (exec : ℕ → List ℕ) → List ℕ → (stack_str : List ℕ) → Option (List ℕ)
unfolding file_name erase_last
get_call_stack_string exec [] stack_str = some stack_str
get_call_stack_string exec (a ∷ call_stack) stack_str =
    let source_line = exec a in
    elim (if is_known source_line
      then append_line stack_str (erase_last (file_name source_line))
      else some stack_str) [ none ↦ none | some str ↦ get_call_stack_string exec call_stack str ]

-- The numbers of type `double` and `float` that the report compares.
pub record Reals : Type 1 where
  pub Real : Type 0
  pub below : Real → Real → Bool
  -- `(max - min) > 10`
  pub over_ten : (min max : Real) → Bool

-- `std::string`, compared by its codes.
abbrev pub Text : Type 0
Text = List ℕ

unfoldable pub same_text : Text → Text → Bool
same_text [] [] = true
same_text [] (d ∷ t) = false
same_text (c ∷ s) [] = false
same_text (c ∷ s) (d ∷ t) = (c == d) && same_text s t

unfoldable pub before_text : Text → Text → Bool
before_text s [] = false
before_text [] (d ∷ t) = true
before_text (c ∷ s) (d ∷ t) = ltb c d || ((c == d) && before_text s t)

same_text-eq : (s t : Text) → same_text s t ≡ true → s ≡ t
unfolding same_text
same_text-eq [] [] h = refl
same_text-eq [] (d ∷ t) h = cc
same_text-eq (c ∷ s) [] h = cc
same_text-eq (c ∷ s) (d ∷ t) h = ground (arith, same_text-eq s t)

same_text_self : (s : Text) → same_text s s ≡ true
unfolding same_text
same_text_self [] = refl
same_text_self (c ∷ s) = ground (arith, same_text_self s)

pub same_text_iff : (s t : Text) → (same_text s t ≡ true) ↔ (s ≡ t)
same_text_iff s t = (same_text-eq s t, λ e. rw (← e) (same_text_self s))

instance abbrev pub text_key : Key Text
text_key = record { same = same_text; before = before_text; same_iff = same_text_iff }

module _ (reals : Reals) where
  open reals use {Real, below, over_ten}

  -- `Map`
  abbrev pub CallStackMap : Type 0
  CallStackMap = List (Text × List Real)

  abbrev pub add_rate : Text → Real → CallStackMap → Option (List Real) → CallStackMap
  add_rate call_contexts conflict_rate m none = put call_contexts (conflict_rate ∷ []) m
  add_rate call_contexts conflict_rate m (some rates) =
      modify call_contexts (λ rs. rs ++ conflict_rate ∷ []) m

  -- `updateCallStackMap`
  unfoldable pub update_call_stack_map : Text → Real → CallStackMap → CallStackMap
  update_call_stack_map call_contexts conflict_rate m =
      add_rate call_contexts conflict_rate m (find call_contexts m)

  -- The loop that looks for the smallest and the largest rate.
  unfoldable pub min_max : (min max : Real) → List Real → Real × Real
  min_max min max [] = (min, max)
  min_max min max (r ∷ rates) =
      min_max (if below r min then r else min) (if below max r then r else max) rates

  unfoldable pub is_asymmetric : List Real → Bool
  unfolding min_max
  is_asymmetric [] = false
  is_asymmetric (r ∷ []) = false
  is_asymmetric (r ∷ s ∷ rates) = let ends = min_max r r (r ∷ s ∷ rates) in over_ten ends.0 ends.1

  -- `findAsymmetricLock`
  unfoldable pub find_asymmetric_lock : CallStackMap → List Text
  unfolding is_asymmetric
  find_asymmetric_lock [] = []
  find_asymmetric_lock ((k, rates) ∷ m) =
      let results = find_asymmetric_lock m in if is_asymmetric rates then k ∷ results else results
