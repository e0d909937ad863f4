-- ===== src/Report/Stacks.antt =====
-- The call stacks of all mutexes in the report (source/report.h, `print`).
use sync_perf.Base.{
  ℕ, zero, suc, ◌≡◌, refl, sym, ap, ◌∙◌, ◌↔◌, true, List, [], ◌∷◌, ◌++◌, ltb, if◌then◌else◌,
  Bool-cases, inl, inr, find,
}
use sync_perf.Manager.Counters.{SyncData}
use sync_perf.Report.Totals.{Totals, sum_threads}
use sync_perf.Report.Contexts.{
  Text, Reals, CallStackMap, update_call_stack_map, find_asymmetric_lock,
}
use sync_perf.Report.Asymmetry.{IsRealOrder, FarApart, is_asymmetric-FarApart}
use sync_perf.Report.Updates.{
  update_all, rates_of, rates_at, lists, update_all-Distinct, rates_at-update_all,
  lists-find_asymmetric_lock,
}

module _ (reals : Reals) (rate : Totals → reals.Real) (contexts : ℕ → List Text) where
  open reals use {Real}

  -- The loop over the call stacks of one mutex.
  unfoldable pub record_contexts : List Text → Real → CallStackMap reals → CallStackMap reals
  record_contexts [] r m = m
  record_contexts (c ∷ cs) r m = record_contexts cs r (update_call_stack_map reals c r m)

  abbrev pub add_contexts : ℕ → Totals → CallStackMap reals → CallStackMap reals
  add_contexts entry t m =
      if ltb 0 t.access_count then record_contexts (contexts entry) (rate t) m else m

  -- `print`, as far as it fills the map: `rate` is the quotient that it computes for the conflict
  -- rate, and `contexts` has the text of each call stack of a mutex.
  unfoldable pub call_stack_map :
      SyncData → (total_threads total_sync_vars : ℕ) → CallStackMap reals
  unfolding record_contexts sum_threads
  call_stack_map d threads zero = []
  call_stack_map d threads (suc n) =
      add_contexts n (sum_threads d n threads) (call_stack_map d threads n)

  -- The call stacks of the used mutexes, each with its mutex's conflict rate.
  abbrev with_rate : List Text → Real → List (Text × Real)
  with_rate [] r = []
  with_rate (c ∷ cs) r = (c, r) ∷ with_rate cs r

  abbrev pub stacks_of : ℕ → Totals → List (Text × Real)
  stacks_of entry t = if ltb 0 t.access_count then with_rate (contexts entry) (rate t) else []

  abbrev pub all_stacks : SyncData → (threads n : ℕ) → List (Text × Real)
  all_stacks d threads zero = []
  all_stacks d threads (suc n) = all_stacks d threads n ++ stacks_of n (sum_threads d n threads)

  update_all-append :
      (us vs : List (Text × Real)) (m : CallStackMap reals)
      → update_all reals (us ++ vs) m ≡ update_all reals vs (update_all reals us m)
  unfolding update_all
  update_all-append [] vs m = refl
  update_all-append ((k, r) ∷ us) vs m = update_all-append us vs (update_call_stack_map reals k r m)

  record_contexts-update_all :
      (cs : List Text) (r : Real) (m : CallStackMap reals)
      → record_contexts cs r m ≡ update_all reals (with_rate cs r) m
  unfolding record_contexts update_all
  record_contexts-update_all [] r m = refl
  record_contexts-update_all (c ∷ cs) r m =
      record_contexts-update_all cs r (update_call_stack_map reals c r m)

  add_contexts-update_all :
      (entry : ℕ) (t : Totals) (m : CallStackMap reals)
      → add_contexts entry t m ≡ update_all reals (stacks_of entry t) m
  unfolding update_all
  add_contexts-update_all entry t m = elim (Bool-cases (ltb 0 t.access_count)) [
    | inl used ↦ rw used (record_contexts-update_all (contexts entry) (rate t) m)
    | inr unused ↦ rw unused refl
  ]

  call_stack_map-update_all :
      (d : SyncData) (threads n : ℕ)
      → call_stack_map d threads n ≡ update_all reals (all_stacks d threads n) []
  unfolding call_stack_map update_all
  call_stack_map-update_all d threads zero = refl
  call_stack_map-update_all d threads (suc n) =
      let t = sum_threads d n threads in
      ap (add_contexts n t) (call_stack_map-update_all d threads n)
      ∙ add_contexts-update_all n t (update_all reals (all_stacks d threads n) [])
      ∙ sym (update_all-append (all_stacks d threads n) (stacks_of n t) [])

  -- The report lists a call stack as an asymmetric lock exactly if two of the conflict rates that
  -- belong to it, one for each used mutex and each call stack of it with that text, are more than
  -- ten apart; the order of the numbers and the test of ten are assumed to behave as on reals.
  pub report_asymmetric :
      IsRealOrder reals
      → (d : SyncData) (threads n : ℕ) (k : Text)
      → (lists k (find_asymmetric_lock reals (call_stack_map d threads n)) ≡ true)
        ↔ FarApart reals (rates_of reals k (all_stacks d threads n))
  unfolding find
  report_asymmetric laws d threads n k =
      let us = all_stacks d threads n in
      let m = update_all reals us [] in
      let e : rates_at reals k m ≡ rates_of reals k us = rates_at-update_all reals k us [] in
      rw
        (
          call_stack_map-update_all d threads n,
          lists-find_asymmetric_lock reals k m (update_all-Distinct reals us [] tt),
          e,
        )
        (is_asymmetric-FarApart reals laws (rates_of reals k us))
