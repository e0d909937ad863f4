-- ===== src/Report/Output.antt =====
-- source/report.h: the text of syncperf.report, as `print` and `write_report` insert it into the
-- stream.
use sync_perf.Base.{ℕ, ◌+◌, List, [], ◌∷◌, ◌++◌, length}
use sync_perf.Report.Contexts.{Text}
use sync_perf.Report.Texts.{newline}
use sync_perf.Report.Format.{codes, line, decimal}

-- `sync_perf_t`, with as many texts in `line_info` as `count` says.
pub record PerfEntry (Real : Type 0) : Type 0 where
  pub conflict_rate : Real
  pub frequency : Real
  pub line_info : List Text

abbrev pub tab : ℕ
tab = 9

-- The fixed texts.
abbrev pub total_found : Text
total_found = codes "Total found : "

abbrev pub number : Text
number = codes "No."

abbrev pub rule_line : Text
rule_line = codes "-------"

abbrev pub conflict_rate_is : Text
conflict_rate_is = tab ∷ tab ∷ codes "Conflict Rate: "

abbrev pub frequency_is : Text
frequency_is = tab ∷ tab ∷ codes "Acquisition Frequency: "

abbrev pub line_numbers_are : Text
line_numbers_are = tab ∷ tab ∷ codes "Line Numbers: "

abbrev pub indent : Text
indent = tab ∷ tab ∷ tab ∷ []

-- The loop over `line_info`.
unfoldable pub write_lines : List Text → Text
write_lines [] = []
write_lines (s ∷ ss) = line (indent ++ s) ++ write_lines ss

abbrev pub bar : Text
bar = codes "=============================="

abbrev pub short_bar : Text
short_bar = codes "======================"

abbrev pub middle_bar : Text
middle_bar = codes "========================"

abbrev pub high_high_title : Text
high_high_title = codes "HIGH CONFLICT , HIGH FREQUENCY"

abbrev pub high_low_title : Text
high_low_title = codes "HIGH CONFLICT , LOW FREQUENCY"

abbrev pub low_high_title : Text
low_high_title = codes "LOW CONFLICT , HIGH FREQUENCY"

abbrev pub asymmetric_found : Text
asymmetric_found = codes "Asymmetric Locks found :" ++ tab ∷ []

-- What `print` hands to the stream.
pub record Findings (Real : Type 0) : Type 0 where
  pub high_high : List (PerfEntry Real)
  pub high_low : List (PerfEntry Real)
  pub low_high : List (PerfEntry Real)
  pub asym_locks : List Text

abbrev pub heading : (title : Text) → Text
heading title = newline ∷ newline ∷ (line bar ++ (line title ++ line bar))

-- The asymmetric locks, where there are any.
unfoldable pub write_locks : List Text → Text
write_locks [] = []
write_locks (s ∷ ss) = line s ++ write_locks ss

unfoldable pub write_asymmetric : List Text → Text
unfolding write_locks
write_asymmetric [] = []
write_asymmetric (s ∷ ss) =
    newline
    ∷ newline
    ∷ (line short_bar
        ++ (line (asymmetric_found ++ decimal (length (s ∷ ss)))
            ++ (line middle_bar ++ write_locks (s ∷ ss))))

-- `operator<<` prints a `double` by the parameter `show`.
module _ {Real : Type 0} (show : Real → Text) where
  unfoldable pub write_entry : (id : ℕ) → PerfEntry Real → Text
  unfolding write_lines
  write_entry id e =
      line (number ++ decimal id)
      ++ (line (rule_line ++ [])
          ++ (line (conflict_rate_is ++ show e.conflict_rate)
              ++ (line (frequency_is ++ show e.frequency)
                  ++ (line (line_numbers_are ++ decimal (length e.line_info))
                      ++ write_lines e.line_info))))

  -- The loop over the entries; `id` is the number before the next.
  unfoldable pub write_entries : (id : ℕ) → List (PerfEntry Real) → Text
  unfolding write_entry
  write_entries id [] = []
  write_entries id (e ∷ es) = write_entry (id + 1) e ++ write_entries (id + 1) es

  unfoldable pub write_report : List (PerfEntry Real) → Text
  unfolding write_entries
  write_report results = line (total_found ++ decimal (length results)) ++ write_entries 0 results

  -- The whole file.
  unfoldable pub write_file : Findings Real → Text
  unfolding write_report write_asymmetric
  write_file f =
      heading high_high_title
      ++ (write_report f.high_high
          ++ (heading high_low_title
              ++ (write_report f.high_low
                  ++ (heading low_high_title
                      ++ (write_report f.low_high ++ write_asymmetric f.asym_locks)))))
