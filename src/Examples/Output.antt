-- ===== src/Examples/Output.antt =====
-- The text of the report on a few counters.
use sync_perf.Base.{ℕ, ◌≡◌, arith, some, List, [], ◌∷◌}
use sync_perf.Report.Contexts.{Text, find_asymmetric_lock}
use sync_perf.Report.Stacks.{call_stack_map}
use sync_perf.Report.Quadrants.{all_entries, is_high_high, is_high_low, is_low_high}
use sync_perf.Report.Format.{codes, decimal, Lacks-decimal}
use sync_perf.Report.RoundTrip.{read_file}
use sync_perf.Report.Whole.{report, rows, read_file-report}
use sync_perf.Examples.Reports.{busy, whole}

abbrev one_line : ℕ → List Text
one_line i = codes "main.c:7 " ∷ []

read_file-report_example :
    read_file
      (report whole (λ t. t.fail_count) (λ t. t.access_count) one_line decimal 1000 5000 busy 2 3)
    ≡ some (record {
      high_high =
          rows whole
            (λ t. t.fail_count)
            (λ t. t.access_count)
            one_line
            decimal
            (is_high_high 1000 5000)
            (all_entries busy 2 3);
      high_low =
          rows whole
            (λ t. t.fail_count)
            (λ t. t.access_count)
            one_line
            decimal
            (is_high_low 1000 5000)
            (all_entries busy 2 3);
      low_high =
          rows whole
            (λ t. t.fail_count)
            (λ t. t.access_count)
            one_line
            decimal
            (is_low_high 1000 5000)
            (all_entries busy 2 3);
      asym_locks =
          find_asymmetric_lock whole (call_stack_map whole (λ t. t.fail_count) one_line busy 2 3);
    })
read_file-report_example =
    read_file-report whole (λ t. t.fail_count) (λ t. t.access_count) one_line decimal Lacks-decimal
      (λ i. (omega arith, tt)) 1000 5000 busy 2 3
