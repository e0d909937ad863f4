-- ===== src/Manager/Contexts.antt =====
-- source/mutex_manager.cpp, `add_new_context`: the call sites recorded in the entry of a mutex.
use sync_perf.Base.{
  ℕ, ◌≤◌, ◌<◌, ◌≡◌, ◌↔◌, refl, sym, inl, inr, Bool, true, false, Option, none, some, List, [], ◌∷◌,
  ◌++◌, ◌==◌, ltb, if◌then◌else◌, arith, length, length-append, Bool-cases,
}
use mathlib.Core.List.{append-nil}

abbrev pub max_num_stacks : ℕ
max_num_stacks = 100

-- The i-th elements of `eip`, `esp_offset` and `stacks` of a `mutex_t`. Its first `stack_count`
-- elements are a list, and `stack_count` is the list's length.
pub record Context : Type 0 where
  pub eip : ℕ
  pub esp_offset : ℕ
  pub stack : List ℕ

-- The test of the loop: some recorded context has this return address.
unfoldable pub knows : ℕ → List Context → Bool
knows ret [] = false
knows ret (c ∷ cs) = if c.eip == ret then true else knows ret cs

-- `none` is the failed assertion. `stack` is what `do_backtrace` writes.
unfoldable pub add_new_context : List Context → ℕ → ℕ → List ℕ → Option (List Context)
unfolding knows
add_new_context cs ret esp stack =
    if knows ret cs
    then some cs
    else if ltb (length cs) max_num_stacks
    then some (cs ++ record { eip = ret; esp_offset = esp; stack = stack } ∷ [])
    else none

-- Every call site is recorded once.
abbrev pub Distinct : List Context → Type 0
Distinct [] = Unit
Distinct (c ∷ cs) = (knows c.eip cs ≡ false) × Distinct cs

pub record IsValid (cs : List Context) : Type 0 where
  pub distinct : Distinct cs
  pub fits : length cs ≤ max_num_stacks

knows-append :
    (ret : ℕ) (cs : List Context) (c : Context)
    → knows ret (cs ++ c ∷ []) ≡ (if knows ret cs then true else c.eip == ret)
unfolding knows
knows-append ret [] c = ground arith
knows-append ret (x ∷ cs) c = ground (arith, knows-append ret cs c)

Distinct-append :
    (cs : List Context) (c : Context)
    → knows c.eip cs ≡ false
    → Distinct cs
    → Distinct (cs ++ c ∷ [])
unfolding knows
Distinct-append [] c h d = ground arith
Distinct-append (x ∷ cs) c h d =
    (ground (arith, knows-append x.eip cs c), Distinct-append cs c (ground arith) d.1)

-- A successful call keeps the recorded call sites distinct and within the arrays, keeps every
-- context recorded before in its place, and afterwards the call site is recorded.
pub add_new_context-IsValid :
    (cs : List Context) (ret esp : ℕ) (stack : List ℕ) {cs' : List Context}
    → IsValid cs
    → add_new_context cs ret esp stack ≡ some cs'
    → IsValid cs'
      × ((more : List Context) × (cs' ≡ cs ++ more) × (length more ≤ 1))
      × (knows ret cs' ≡ true)
unfolding add_new_context
add_new_context-IsValid cs ret esp stack {cs'} v e = elim (Bool-cases (knows ret cs)) [
  | inl old ↦
      let same : cs' ≡ cs = ground arith in rw same (v, ([], sym (append-nil cs), omega arith), old)
  | inr new ↦
      let more : List Context = record { eip = ret; esp_offset = esp; stack = stack } ∷ [] in
      let room : length cs < max_num_stacks = ground arith in
      let same : cs' ≡ cs ++ more = ground arith in
      rw same (
        record {
          distinct = Distinct-append cs _ new v.distinct;
          fits = omega (arith, length-append cs more);
        },
        (more, refl, omega arith),
        ground (arith, knows-append ret cs (record { eip = ret; esp_offset = esp; stack = stack })),
      )
]

-- The assertion fails exactly when the call site is new and all MAX_NUM_STACKS places are taken.
pub add_new_context_fails :
    (cs : List Context) (ret esp : ℕ) (stack : List ℕ)
    → (add_new_context cs ret esp stack ≡ none)
      ↔ ((knows ret cs ≡ false) × (max_num_stacks ≤ length cs))
unfolding add_new_context
add_new_context_fails cs ret esp stack = (λ h. ground arith, λ h. ground arith)
