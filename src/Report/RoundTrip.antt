-- ===== src/Report/RoundTrip.antt =====
-- source/report.h: what a reader gets back from a whole syncperf.report.
use mathlib.Core.List.{append_assoc, append-nil, map}
use sync_perf.Base.{
  ℕ, ◌+◌, ◌≡◌, refl, sym, ap, ◌∙◌, arith, List, [], ◌∷◌, ◌++◌, length, Option, some, All,
}
use sync_perf.Report.Contexts.{Text}
use sync_perf.Report.Texts.{newline}
use sync_perf.Report.Format.{line, decimal, Lacks, strip, strip-append, read_field}
use sync_perf.Report.Output.{
  PerfEntry, Findings, total_found, short_bar, middle_bar, asymmetric_found, heading,
  high_high_title, high_low_title, low_high_title, write_locks, write_asymmetric, write_entry,
  write_entries, write_report, write_file,
}
use sync_perf.Report.Reader.{
  ◌>>=◌, then_read, then_field, then_number, Shown, shown, IsPrintable, read_lines,
  read_lines-write_locks, read_number, read_report, read_entry, read_entries,
  read_entry-write_entry,
}

-- What a reader sees of the file.
pub record Seen : Type 0 where
  pub high_high : List Shown
  pub high_low : List Shown
  pub low_high : List Shown
  pub asym_locks : List Text

abbrev first_of : List Text × Text → Option (List Text)
first_of r = some r.0

unfoldable pub read_found : Text → Option (List Text)
read_found t = do
  a ← strip (newline ∷ newline ∷ line short_bar) t
  k ← read_number asymmetric_found a
  r ← read_field middle_bar k.1
  ls ← read_lines [] k.0 r.1
  some ls.0

unfoldable pub read_asymmetric : Text → Option (List Text)
read_asymmetric [] = some []
read_asymmetric (c ∷ t) = read_found (c ∷ t)

unfoldable pub read_file : Text → Option Seen
read_file t = do
  t1 ← strip (heading high_high_title) t
  hh ← read_report t1
  t2 ← strip (heading high_low_title) hh.1
  hl ← read_report t2
  t3 ← strip (heading low_high_title) hl.1
  lh ← read_report t3
  ls ← read_asymmetric lh.1
  some (record { high_high = hh.0; high_low = hl.0; low_high = lh.0; asym_locks = ls })

-- A fixed text, and what reads on.
then_strip :
    {B : Type 0} (p t : Text) (f : Text → Option B) (r : Option B)
    → f t ≡ r
    → (strip p (p ++ t) >>= f) ≡ r
then_strip p t f r h = then_read (strip p (p ++ t)) f t r (strip-append p t) h

module _ {Real : Type 0} (show : Real → Text) where
  read_entries-write_entries :
      (id : ℕ) (es : List (PerfEntry Real)) (rest : Text)
      → All (IsPrintable show) es
      → read_entries (length es) id (write_entries show id es ++ rest)
        ≡ some (map (shown show) es, rest)
  unfolding read_entries write_entries
  read_entries-write_entries id [] rest h = refl
  read_entries-write_entries id (e ∷ es) rest (h, hs) =
      rw (append_assoc (write_entry show (id + 1) e) (write_entries show (id + 1) es) rest) (
        then_read
          (read_entry (id + 1)
            (write_entry show (id + 1) e ++ (write_entries show (id + 1) es ++ rest)))
          _ (shown show e, write_entries show (id + 1) es ++ rest) _
          (read_entry-write_entry show (id + 1) e (write_entries show (id + 1) es ++ rest) h)
          (then_read (read_entries (length es) (id + 1) (write_entries show (id + 1) es ++ rest)) _
            (map (shown show) es, rest) _ (read_entries-write_entries (id + 1) es rest hs) refl))

  read_report-write_report :
      (es : List (PerfEntry Real)) (rest : Text)
      → All (IsPrintable show) es
      → read_report (write_report show es ++ rest) ≡ some (map (shown show) es, rest)
  unfolding read_report write_report
  read_report-write_report es rest h =
      then_number total_found (length es) (write_entries show 0 es) rest _ _ (omega arith)
        (read_entries-write_entries 0 es rest h)

  -- A part of the file: its title, its entries, and what reads on.
  then_report :
      {B : Type 0} (title : Text) (es : List (PerfEntry Real)) (rest : Text)
      (f : List Shown × Text → Option B) (r : Option B)
      → All (IsPrintable show) es
      → f (map (shown show) es, rest) ≡ r
      → (strip (heading title) (heading title ++ (write_report show es ++ rest))
          >>= (λ t. read_report t >>= f))
        ≡ r
  then_report title es rest f r h e =
      then_strip (heading title) (write_report show es ++ rest) _ r (
        then_read (read_report (write_report show es ++ rest)) f (map (shown show) es, rest) r
          (read_report-write_report es rest h) e)

read_found-write_asymmetric :
    (s : Text) (ss : List Text) (rest : Text)
    → All Lacks (s ∷ ss)
    → read_found (write_asymmetric (s ∷ ss) ++ rest) ≡ some (s ∷ ss)
unfolding read_found write_asymmetric
read_found-write_asymmetric s ss rest h =
    let locks = write_locks (s ∷ ss) in
    let middle = line middle_bar ++ locks in
    then_strip (newline ∷ newline ∷ line short_bar)
      ((line (asymmetric_found ++ decimal (length (s ∷ ss))) ++ middle) ++ rest) _ _
      (then_number asymmetric_found (length (s ∷ ss)) middle rest _ _ (omega arith) (
        then_field middle_bar [] locks rest _ _ (omega arith) tt (
          then_read (read_lines [] (length (s ∷ ss)) (locks ++ rest)) _ (s ∷ ss, rest) _
            (read_lines-write_locks (s ∷ ss) rest h) refl)))

read_asymmetric-write_asymmetric :
    (ss : List Text) → All Lacks ss → read_asymmetric (write_asymmetric ss) ≡ some ss
unfolding read_asymmetric write_asymmetric
read_asymmetric-write_asymmetric [] h = refl
read_asymmetric-write_asymmetric (s ∷ ss) h =
    ap read_found (sym (append-nil (write_asymmetric (s ∷ ss))))
    ∙ read_found-write_asymmetric s ss [] h

module _ {Real : Type 0} (show : Real → Text) where
  abbrev pub seen : Findings Real → Seen
  seen f = record {
    high_high = map (shown show) f.high_high;
    high_low = map (shown show) f.high_low;
    low_high = map (shown show) f.low_high;
    asym_locks = f.asym_locks;
  }

  pub read_file-write_file :
      (f : Findings Real)
      → All (IsPrintable show) f.high_high
      → All (IsPrintable show) f.high_low
      → All (IsPrintable show) f.low_high
      → All Lacks f.asym_locks
      → read_file (write_file show f) ≡ some (seen f)
  unfolding read_file write_file
  read_file-write_file f h1 h2 h3 h4 =
      let low =
        heading low_high_title ++ (write_report show f.low_high ++ write_asymmetric f.asym_locks) in
      let middle = heading high_low_title ++ (write_report show f.high_low ++ low) in
      then_report show high_high_title f.high_high middle _ _ h1 (
        then_report show high_low_title f.high_low low _ _ h2 (
          then_report show low_high_title f.low_high (write_asymmetric f.asym_locks) _ _ h3 (
            then_read (read_asymmetric (write_asymmetric f.asym_locks)) _ f.asym_locks _
              (read_asymmetric-write_asymmetric f.asym_locks h4) refl)))
