-- ===== src/Program/Texts.antt =====
-- The texts of the call stacks, as source/report.h collects them over all mutexes.
use sync_perf.Base.{
  ℕ, zero, suc, ◌≡◌, ◌≤◌, ◌<◌, refl, ap, ◌∙◌, fun_ext, arith, ◌&&◌, List, [], ◌∷◌, ◌++◌, map, ltb,
  if◌then◌else◌, length, All, All-every, Bool-cases, inl, inr,
}
use sync_perf.Manager.Counters.{SyncData}
use sync_perf.Manager.Contexts.{Context}
use sync_perf.Intercept.World.{Entry}
use sync_perf.Threads.Table.{Result, ok, ◌>>=◌}
use sync_perf.Report.Totals.{Totals, sum_threads}
use sync_perf.Report.Contexts.{Text, is_known, get_call_stack_string}
use sync_perf.Report.Texts.{Answers, names, get_call_stack_string-names}
use sync_perf.Report.Format.{Lacks, Lacks-append}
use sync_perf.Program.Finish.{
  until_zero, max_text, check_text, line_info, entry_info, check_index, all_info,
}

-- A step that returns, and the rest from there.
pub then_ok :
    {A B : Type 0} (m : Result A) (f : A → Result B) (a : A) (r : Result B)
    → m ≡ ok a
    → f a ≡ r
    → (m >>= f) ≡ r
then_ok m f a r e h = ap (λ x. x >>= f) e ∙ h

module _ (exec_at : ℕ → Text) (name : ℕ → Text) where
  -- The text of one call stack.
  abbrev pub text_of : Context → Text
  text_of c = names exec_at name (until_zero c.stack)

  abbrev pub Fits : Context → Type 0
  Fits c = length (text_of c) ≤ max_text

  -- The texts of the mutexes below `n` that were locked.
  abbrev pub texts_of : SyncData → (ℕ → Entry) → (threads n : ℕ) → ℕ → List Text
  texts_of d entries threads n i =
      if ltb i n && ltb 0 (sum_threads d i threads).access_count
      then map text_of (entries i).contexts
      else []

  names-Lacks : ((a : ℕ) → Lacks (name a)) → (stack : List ℕ) → Lacks (names exec_at name stack)
  names-Lacks plain [] = tt
  names-Lacks plain (a ∷ stack) = elim (Bool-cases (is_known (exec_at a))) [
    | inl known ↦ rw known (
        Lacks-append (name a ++ b' ' ∷ []) (names exec_at name stack)
          (Lacks-append (name a) (b' ' ∷ []) (plain a) (omega arith, tt)) (names-Lacks plain stack))
    | inr unknown ↦ rw unknown (names-Lacks plain stack)
  ]

  texts-Lacks : ((a : ℕ) → Lacks (name a)) → (cs : List Context) → All Lacks (map text_of cs)
  texts-Lacks plain [] = tt
  texts-Lacks plain (c ∷ cs) = (names-Lacks plain (until_zero c.stack), texts-Lacks plain cs)

  pub texts_of-Lacks :
      ((a : ℕ) → Lacks (name a))
      → (d : SyncData) (entries : ℕ → Entry) (threads n i : ℕ)
      → All Lacks (texts_of d entries threads n i)
  texts_of-Lacks plain d entries threads n i =
      ground (arith, texts-Lacks plain (entries i).contexts)

  module _ (dir : ℕ → Text) (answers : (a : ℕ) → Answers exec_at dir name a) where
    checked :
        (c : Context)
        → Fits c
        → check_text (get_call_stack_string exec_at (until_zero c.stack) []) ≡ ok (text_of c)
    checked c fits =
        ap check_text (
          get_call_stack_string-names exec_at dir name (until_zero c.stack) []
            (All-every answers (until_zero c.stack)))
        ∙ ground arith

    line_info-texts : (cs : List Context) → All Fits cs → line_info exec_at cs ≡ ok (map text_of cs)
    unfolding line_info
    line_info-texts [] fits = refl
    line_info-texts (c ∷ cs) (fits, rest) =
        then_ok (check_text (get_call_stack_string exec_at (until_zero c.stack) [])) _ (text_of c) _
          (checked c fits)
          (then_ok (line_info exec_at cs) _ (map text_of cs) _ (line_info-texts cs rest) refl)

    entry_info-texts :
        (t : Totals) (cs : List Context)
        → All Fits cs
        → entry_info exec_at t cs ≡ ok (if ltb 0 t.access_count then map text_of cs else [])
    entry_info-texts t cs fits = ground (arith, line_info-texts cs fits)

    -- The loop returns the texts, if every entry knows its index.
    pub all_info-texts :
        (d : SyncData) (entries : ℕ → Entry) (threads n : ℕ)
        → ((i : ℕ) → i < n → (entries i).entry_index ≡ i)
        → ((i : ℕ) → i < n → All Fits (entries i).contexts)
        → all_info exec_at d entries threads n ≡ ok (texts_of d entries threads n)
    unfolding all_info
    all_info-texts d entries threads zero indexed fits = ap ok (fun_ext (λ i. ground arith))
    all_info-texts d entries threads (suc n) indexed fits =
        let t = sum_threads d n threads in
        let ts = if ltb 0 t.access_count then map text_of (entries n).contexts else [] in
        then_ok (all_info exec_at d entries threads n) _ (texts_of d entries threads n) _
          (all_info-texts d entries threads n (λ i lt. indexed i (omega arith))
            (λ i lt. fits i (omega arith)))
          (then_ok (check_index n (entries n)) _ (entries n) _
            (ground (arith, indexed n (omega arith)))
            (then_ok (entry_info exec_at t (entries n).contexts) _ ts _
              (entry_info-texts t (entries n).contexts (fits n (omega arith)))
              (ap ok (fun_ext (λ i. ground arith)))))
