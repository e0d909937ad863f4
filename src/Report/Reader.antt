-- ===== src/Report/Reader.antt =====
-- A reader of syncperf.report, as source/report.h writes it.
use mathlib.Core.List.{append_assoc}
use sync_perf.Base.{
  ℕ, zero, suc, ◌+◌, ◌≡◌, refl, ap, ◌∙◌, arith, List, [], ◌∷◌, ◌++◌, length, Option, none, some,
  All, ◌==◌, if◌then◌else◌,
}
use sync_perf.Report.Contexts.{Text}
use sync_perf.Report.Format.{
  line, decimal, value, value-decimal, Lacks, Lacks-decimal, read_field, read_field-line,
}
use sync_perf.Report.Output.{
  PerfEntry, total_found, number, rule_line, conflict_rate_is, frequency_is, line_numbers_are,
  indent, write_lines, write_locks, write_entry,
}

infixl 5 ◌>>=◌
unfoldable pub ◌>>=◌ : {A B : Type 0} → Option A → (A → Option B) → Option B
none >>= f = none
some a >>= f = f a

-- A step that gives a value, and the rest from there.
pub then_read :
    {A B : Type 0} (m : Option A) (f : A → Option B) (a : A) (r : Option B)
    → m ≡ some a
    → f a ≡ r
    → (m >>= f) ≡ r
unfolding ◌>>=◌
then_read m f a r e h = ap (λ o. o >>= f) e ∙ h

-- What a reader sees of an entry.
pub record Shown : Type 0 where
  pub conflict_rate : Text
  pub frequency : Text
  pub line_info : List Text

-- A number on a line that begins with the given text.
abbrev number_of : Text × Text → Option (ℕ × Text)
number_of r = some (value 0 r.0, r.1)

unfoldable pub read_number : (prefix : Text) → Text → Option (ℕ × Text)
read_number p t = read_field p t >>= number_of

-- `k` lines that begin with the given text.
unfoldable pub read_lines : (prefix : Text) (k : ℕ) → Text → Option (List Text × Text)
read_lines p zero t = some ([], t)
read_lines p (suc k) t = do s ← read_field p t; ss ← read_lines p k s.1; some (s.0 ∷ ss.0, ss.1)

unfoldable pub read_entry : (id : ℕ) → Text → Option (Shown × Text)
unfolding read_lines read_number
read_entry id t = do
  i ← read_number number t
  r ← read_field rule_line i.1
  c ← read_field conflict_rate_is r.1
  f ← read_field frequency_is c.1
  k ← read_number line_numbers_are f.1
  ls ← read_lines indent k.0 k.1
  if i.0 == id
      then some (record { conflict_rate = c.0; frequency = f.0; line_info = ls.0 }, ls.1)
      else none

-- `k` entries, numbered from `id + 1` on.
unfoldable pub read_entries : (k id : ℕ) → Text → Option (List Shown × Text)
unfolding read_entry
read_entries zero id t = some ([], t)
read_entries (suc k) id t = do
  e ← read_entry (id + 1) t
  es ← read_entries k (id + 1) e.1
  some (e.0 ∷ es.0, es.1)

unfoldable pub read_report : Text → Option (List Shown × Text)
unfolding read_entries
read_report t = do n ← read_number total_found t; read_entries n.0 0 n.1

module _ {Real : Type 0} (show : Real → Text) where
  abbrev pub shown : PerfEntry Real → Shown
  shown e = record {
    conflict_rate = show e.conflict_rate;
    frequency = show e.frequency;
    line_info = e.line_info;
  }

  -- No part of the entry holds the end of a line.
  pub record IsPrintable (e : PerfEntry Real) : Type 0 where
    pub rate : Lacks (show e.conflict_rate)
    pub frequency : Lacks (show e.frequency)
    pub lines : All Lacks e.line_info

-- A field on the first line of a text, and what reads on.
pub then_field :
    {B : Type 0} (p v x rest : Text) (f : Text × Text → Option B) (r : Option B)
    → Lacks p
    → Lacks v
    → f (v, x ++ rest) ≡ r
    → (read_field p ((line (p ++ v) ++ x) ++ rest) >>= f) ≡ r
then_field p v x rest f r hp hv h = rw (append_assoc (line (p ++ v)) x rest) (
    then_read (read_field p (line (p ++ v) ++ (x ++ rest))) f (v, x ++ rest) r
      (read_field-line p v (x ++ rest) hp hv) h)

read_lines-write_lines :
    (ss : List Text) (rest : Text)
    → All Lacks ss
    → read_lines indent (length ss) (write_lines ss ++ rest) ≡ some (ss, rest)
unfolding read_lines write_lines
read_lines-write_lines [] rest h = refl
read_lines-write_lines (s ∷ ss) rest (h, hs) =
    then_field indent s (write_lines ss) rest _ _ (omega arith) h (
      then_read (read_lines indent (length ss) (write_lines ss ++ rest)) _ (ss, rest) _
        (read_lines-write_lines ss rest hs) refl)

pub read_lines-write_locks :
    (ss : List Text) (rest : Text)
    → All Lacks ss
    → read_lines [] (length ss) (write_locks ss ++ rest) ≡ some (ss, rest)
unfolding read_lines write_locks
read_lines-write_locks [] rest h = refl
read_lines-write_locks (s ∷ ss) rest (h, hs) = then_field [] s (write_locks ss) rest _ _ tt h (
    then_read (read_lines [] (length ss) (write_locks ss ++ rest)) _ (ss, rest) _
      (read_lines-write_locks ss rest hs) refl)

pub then_number :
    {B : Type 0} (p : Text) (n : ℕ) (x rest : Text) (f : ℕ × Text → Option B) (r : Option B)
    → Lacks p
    → f (n, x ++ rest) ≡ r
    → (read_number p ((line (p ++ decimal n) ++ x) ++ rest) >>= f) ≡ r
unfolding read_number
then_number p n x rest f r hp h =
    then_read (read_number p ((line (p ++ decimal n) ++ x) ++ rest)) f (n, x ++ rest) r
      (then_field p (decimal n) x rest number_of (some (n, x ++ rest)) hp (Lacks-decimal n)
        (ap (λ m. some (m, x ++ rest)) (value-decimal n)))
      h

guard-id : {A : Type 0} (id : ℕ) (a : A) → (if id == id then some a else none) ≡ some a
guard-id id a = ground arith

module _ {Real : Type 0} (show : Real → Text) where
  pub read_entry-write_entry :
      (id : ℕ) (e : PerfEntry Real) (rest : Text)
      → IsPrintable show e
      → read_entry id (write_entry show id e ++ rest) ≡ some (shown show e, rest)
  unfolding read_entry write_entry
  read_entry-write_entry id e rest h =
      let lines = write_lines e.line_info in
      let count = line (line_numbers_are ++ decimal (length e.line_info)) ++ lines in
      let frequency = line (frequency_is ++ show e.frequency) ++ count in
      let rate = line (conflict_rate_is ++ show e.conflict_rate) ++ frequency in
      then_number number id (line rule_line ++ rate) rest _ _ (omega arith) (
        then_field rule_line [] rate rest _ _ (omega arith) tt (
          then_field conflict_rate_is (show e.conflict_rate) frequency rest _ _ (omega arith) h.rate
            (then_field frequency_is (show e.frequency) count rest _ _ (omega arith) h.frequency (
              then_number line_numbers_are (length e.line_info) lines rest _ _ (omega arith) (
                then_read (read_lines indent (length e.line_info) (lines ++ rest)) _
                  (e.line_info, rest) _ (read_lines-write_lines e.line_info rest h.lines)
                  (guard-id id (shown show e, rest)))))))
