-- ===== src/Report/Whole.antt =====
-- source/report.h, `print`: from the counters to the text of syncperf.report.
use mathlib.Core.List.{map}
use sync_perf.Base.{
  ℕ, zero, suc, ◌≡◌, ap, ◌∙◌, Option, none, some, List, [], ◌∷◌, ◌++◌, All, Bool, keep, put, modify,
  find, arith,
}
use sync_perf.Manager.Counters.{SyncData}
use sync_perf.Report.Totals.{Totals, SyncPerf, Lists, print, sum_threads}
use sync_perf.Report.Quadrants.{is_high_high, is_high_low, is_low_high, all_entries, print-filtered}
use sync_perf.Report.Contexts.{
  Text, text_key, Reals, CallStackMap, add_rate, update_call_stack_map, find_asymmetric_lock,
}
use sync_perf.Report.Stacks.{record_contexts, add_contexts, call_stack_map}
use sync_perf.Report.Format.{Lacks}
use sync_perf.Report.Output.{PerfEntry, Findings, write_file}
use sync_perf.Report.Reader.{Shown, shown, IsPrintable}
use sync_perf.Report.RoundTrip.{read_file, read_file-write_file}

abbrev LacksKeys : {V : Type 0} → List (Text × V) → Type 0
LacksKeys m = All (λ e. Lacks e.0) m

put-LacksKeys :
    {V : Type 0} (k : Text) (v : V) (m : List (Text × V))
    → Lacks k
    → LacksKeys m
    → LacksKeys (put k v m)
unfolding put
put-LacksKeys k v [] h hs = (h, tt)
put-LacksKeys k v ((j, w) ∷ m) h (hj, hs) = ground (arith, put-LacksKeys k v m h hs)

modify-LacksKeys :
    {V : Type 0} (k : Text) (f : V → V) (m : List (Text × V))
    → LacksKeys m
    → LacksKeys (modify k f m)
unfolding modify
modify-LacksKeys k f [] hs = tt
modify-LacksKeys k f ((j, w) ∷ m) (hj, hs) = ground (arith, modify-LacksKeys k f m hs)

find_asymmetric_lock-Lacks :
    (reals : Reals) (m : CallStackMap reals)
    → LacksKeys m
    → All Lacks (find_asymmetric_lock reals m)
unfolding find_asymmetric_lock
find_asymmetric_lock-Lacks reals [] hs = tt
find_asymmetric_lock-Lacks reals ((k, rates) ∷ m) (h, hs) =
    ground (arith, find_asymmetric_lock-Lacks reals m hs)

All-map :
    {A B : Type 0} (P : B → Type 0) (f : A → B)
    → ((a : A) → P (f a))
    → (xs : List A) → All P (map f xs)
All-map P f h [] = tt
All-map P f h (x ∷ xs) = (h x, All-map P f h xs)

-- `rate` and `frequency` are the quotients that `print` computes, `contexts` has the texts of the
-- call stacks of a mutex, and `show` is how the stream prints a number of type `double`.
add_rate-LacksKeys :
    (reals : Reals) (c : Text) (r : reals.Real) (m : CallStackMap reals)
    (o : Option (List reals.Real))
    → Lacks c
    → LacksKeys m
    → LacksKeys (add_rate reals c r m o)
add_rate-LacksKeys reals c r m none h hs = put-LacksKeys c (r ∷ []) m h hs
add_rate-LacksKeys reals c r m (some rates) h hs = modify-LacksKeys c (λ rs. rs ++ r ∷ []) m hs

module _ (reals : Reals) (rate frequency : Totals → reals.Real) (contexts : ℕ → List Text)
    (show : reals.Real → Text) where
  open reals use {Real}

  record_contexts-LacksKeys :
      (cs : List Text) (r : Real) (m : CallStackMap reals)
      → All Lacks cs
      → LacksKeys m
      → LacksKeys (record_contexts reals rate contexts cs r m)
  unfolding record_contexts update_call_stack_map
  record_contexts-LacksKeys [] r m h hs = hs
  record_contexts-LacksKeys (c ∷ cs) r m (h, hc) hs =
      record_contexts-LacksKeys cs r (update_call_stack_map reals c r m) hc
        (add_rate-LacksKeys reals c r m (find c m) h hs)

  add_contexts-LacksKeys :
      (entry : ℕ) (t : Totals) (m : CallStackMap reals)
      → All Lacks (contexts entry)
      → LacksKeys m
      → LacksKeys (add_contexts reals rate contexts entry t m)
  add_contexts-LacksKeys entry t m h hs =
      ground (arith, record_contexts-LacksKeys (contexts entry) (rate t) m h hs)

  -- The entry that `print` adds to a list.
  abbrev pub sync_perf_entry : SyncPerf → PerfEntry Real
  sync_perf_entry p = record {
    conflict_rate = rate p.totals;
    frequency = frequency p.totals;
    line_info = contexts p.entry;
  }

  -- The file that `print` writes.
  abbrev pub findings : (cpu_freq elapse : ℕ) → SyncData → (threads n : ℕ) → Findings Real
  findings cpu_freq elapse d threads n =
      let l = print cpu_freq elapse d threads n in
      record {
        high_high = map sync_perf_entry l.high_conflict_high_freq;
        high_low = map sync_perf_entry l.high_conflict_low_freq;
        low_high = map sync_perf_entry l.low_conflict_high_freq;
        asym_locks = find_asymmetric_lock reals (call_stack_map reals rate contexts d threads n);
      }

  unfoldable pub report : (cpu_freq elapse : ℕ) → SyncData → (threads n : ℕ) → Text
  report cpu_freq elapse d threads n = write_file show (findings cpu_freq elapse d threads n)

  call_stack_map-LacksKeys :
      ((i : ℕ) → All Lacks (contexts i))
      → (d : SyncData) (threads n : ℕ) → LacksKeys (call_stack_map reals rate contexts d threads n)
  unfolding call_stack_map
  call_stack_map-LacksKeys plain d threads zero = tt
  call_stack_map-LacksKeys plain d threads (suc n) =
      let t = sum_threads d n threads in
      let m = call_stack_map reals rate contexts d threads n in
      let hs = call_stack_map-LacksKeys plain d threads n in
      add_contexts-LacksKeys n t m (plain n) hs

  -- What a reader sees of the mutexes that pass a test.
  abbrev pub rows : (SyncPerf → Bool) → List SyncPerf → List Shown
  rows test ps = map (shown show) (map sync_perf_entry (keep test ps))

  -- A reader that takes syncperf.report apart again, line by line and with the counts that it finds
  -- there, succeeds on what `print` writes for any counters, and gets for each of the three titles
  -- the mutexes of that quadrant, in their order, each with its conflict rate, its frequency and
  -- the texts of its call stacks, and behind them the asymmetric locks; if no number prints as a
  -- text with the end of a line in it, and no call stack has such a text.
  pub read_file-report :
      ((r : Real) → Lacks (show r))
      → ((i : ℕ) → All Lacks (contexts i))
      → (cpu_freq elapse : ℕ) (d : SyncData) (threads n : ℕ)
      → read_file (report cpu_freq elapse d threads n)
        ≡ some (record {
          high_high = rows (is_high_high cpu_freq elapse) (all_entries d threads n);
          high_low = rows (is_high_low cpu_freq elapse) (all_entries d threads n);
          low_high = rows (is_low_high cpu_freq elapse) (all_entries d threads n);
          asym_locks = find_asymmetric_lock reals (call_stack_map reals rate contexts d threads n);
        })
  unfolding report
  read_file-report flat plain cpu_freq elapse d threads n =
      let printable : (p : SyncPerf) → IsPrintable show (sync_perf_entry p) =
        λ p. record { rate = flat _; frequency = flat _; lines = plain p.entry } in
      let l = print cpu_freq elapse d threads n in
      read_file-write_file show (findings cpu_freq elapse d threads n)
        (All-map (IsPrintable show) sync_perf_entry printable l.high_conflict_high_freq)
        (All-map (IsPrintable show) sync_perf_entry printable l.high_conflict_low_freq)
        (All-map (IsPrintable show) sync_perf_entry printable l.low_conflict_high_freq)
        (find_asymmetric_lock-Lacks reals (call_stack_map reals rate contexts d threads n)
          (call_stack_map-LacksKeys plain d threads n))
      ∙ ap
          (λ (l : Lists). some (record {
            high_high = map (shown show) (map sync_perf_entry l.high_conflict_high_freq);
            high_low = map (shown show) (map sync_perf_entry l.high_conflict_low_freq);
            low_high = map (shown show) (map sync_perf_entry l.low_conflict_high_freq);
            asym_locks =
                find_asymmetric_lock reals (call_stack_map reals rate contexts d threads n);
          }))
          (print-filtered cpu_freq elapse d threads n)
