-- ===== src/Report/Texts.antt =====
-- The text of a call stack (source/report.h, `get_call_stack_string`).
use sync_perf.Base.{
  ℕ, ◌≡◌, refl, sym, ap, ◌∙◌, arith, All, Bool-cases, inl, inr, true, false, Option, some, none,
  List, [], ◌∷◌, ◌++◌, ◌||◌, if◌then◌else◌,
}
use mathlib.Core.List.{append-nil, append_assoc}
use sync_perf.Report.Contexts.{
  is_separator, has_separator, file_name, erase_last, is_known, append_line, get_call_stack_string,
}

-- `'\n'`
abbrev pub newline : ℕ
newline = 10

has_separator-append :
    (s t : List ℕ) → has_separator (s ++ t) ≡ (has_separator s || has_separator t)
unfolding has_separator
has_separator-append [] t = refl
has_separator-append (c ∷ s) t = ground (arith, has_separator-append s t)

file_name-path :
    (dir name : List ℕ) (c : ℕ)
    → is_separator c ≡ true
    → has_separator name ≡ false
    → file_name (dir ++ c ∷ name) ≡ name
unfolding file_name has_separator
file_name-path [] name c sep plain = ground arith
file_name-path (d ∷ dir) name c sep plain =
    ground (arith, file_name-path dir name c sep plain, has_separator-append dir (c ∷ name))

erase_last-snoc : (s : List ℕ) (c : ℕ) → erase_last (s ++ c ∷ []) ≡ some s
unfolding erase_last
erase_last-snoc [] c = refl
erase_last-snoc (d ∷ []) c = refl
erase_last-snoc (d ∷ e ∷ s) c = ground (arith, erase_last-snoc (e ∷ s) c)

-- What `addr2line` prints for an address: a question mark first, or a path and a file name with a
-- line number.
pub record Answers (exec : ℕ → List ℕ) (dir name : ℕ → List ℕ) (a : ℕ) : Type 0 where
  pub output : is_known (exec a) ≡ true → exec a ≡ dir a ++ b'/' ∷ (name a ++ newline ∷ [])
  pub plain : has_separator (name a) ≡ false

-- The file names of the addresses that are known, each with a blank behind it.
abbrev pub names : (exec : ℕ → List ℕ) → (ℕ → List ℕ) → List ℕ → List ℕ
names exec name [] = []
names exec name (a ∷ stack) =
    (if is_known (exec a) then name a ++ b' ' ∷ [] else []) ++ names exec name stack

module _ (exec : ℕ → List ℕ) (dir name : ℕ → List ℕ) where
  one_line :
      (a : ℕ) (str : List ℕ)
      → Answers exec dir name a
      → (if is_known (exec a) then append_line str (erase_last (file_name (exec a))) else some str)
        ≡ some (str ++ (if is_known (exec a) then name a ++ b' ' ∷ [] else []))
  unfolding has_separator
  one_line a str h = elim (Bool-cases (is_known (exec a))) [
    | inl known ↦
        let plain : has_separator (name a ++ newline ∷ []) ≡ false =
          ground (arith, has_separator-append (name a) (newline ∷ []), h.plain) in
        rw known (
          rw
            (
              h.output known,
              file_name-path (dir a) (name a ++ newline ∷ []) b'/' refl plain,
              erase_last-snoc (name a) newline,
            )
            refl)
    | inr unknown ↦ rw unknown (ap some (sym (append-nil str)))
  ]

  -- If `addr2line` answers each address of a call stack with a question mark, or with a path, a
  -- separator and a file name, the text of the call stack is the file names of the known addresses,
  -- in their order, behind what the text began with.
  pub get_call_stack_string-names :
      (call_stack str : List ℕ)
      → All (Answers exec dir name) call_stack
      → get_call_stack_string exec call_stack str ≡ some (str ++ names exec name call_stack)
  unfolding get_call_stack_string
  get_call_stack_string-names [] str h = ap some (sym (append-nil str))
  get_call_stack_string-names (a ∷ call_stack) str h =
      let piece = if is_known (exec a) then name a ++ b' ' ∷ [] else [] in
      ap
        (λ (o : Option (List ℕ)). elim o [
          | none ↦ none
          | some s ↦ get_call_stack_string exec call_stack s
        ])
        (one_line a str h.0)
      ∙ get_call_stack_string-names call_stack (str ++ piece) h.1
      ∙ ap some (append_assoc str piece (names exec name call_stack))
