-- ===== src/Report/Quadrants.antt =====
-- What the lists of the report hold (source/report.h).
use sync_perf.Base.{
  leb, ℕ, zero, suc, ◌+◌, ◌≤◌, ◌<◌, ◌≡◌, refl, ap, ◌∙◌, Bool, true, false, not, ◌&&◌, arith, List,
  [], ◌∷◌, ◌++◌, ltb, if◌then◌else◌, keep, keep-append, tabulate, length, length-append,
}
use mathlib.Core.List.{append-nil}
use sync_perf.Manager.Counters.{SyncData}
use sync_perf.Report.Totals.{
  Totals, SyncPerf, Lists, high_conflict, high_frequency, classify, add_entry, print, sum_threads,
}

-- The mutexes with their totals, in the order of their indices.
abbrev pub all_entries : SyncData → (threads n : ℕ) → List SyncPerf
all_entries d threads n = tabulate (λ i. record { entry = i; totals = sum_threads d i threads }) n

abbrev pub is_used : SyncPerf → Bool
is_used p = ltb 0 p.totals.access_count

-- The tests of the three lists, on whether the mutex is used, and on its conflicts and frequency.
abbrev pub is_high_high : (cpu_freq elapse : ℕ) → SyncPerf → Bool
is_high_high cpu_freq elapse p =
    is_used p && (high_conflict p.totals && high_frequency cpu_freq elapse p.totals)

abbrev pub is_high_low : (cpu_freq elapse : ℕ) → SyncPerf → Bool
is_high_low cpu_freq elapse p =
    is_used p && (high_conflict p.totals && not (high_frequency cpu_freq elapse p.totals))

abbrev pub is_low_high : (cpu_freq elapse : ℕ) → SyncPerf → Bool
is_low_high cpu_freq elapse p =
    is_used p && (not (high_conflict p.totals) && high_frequency cpu_freq elapse p.totals)

-- The lists of the report, by a filter each.
abbrev pub filtered : (cpu_freq elapse : ℕ) → List SyncPerf → Lists
filtered cpu_freq elapse ps = record {
  high_conflict_high_freq = keep (is_high_high cpu_freq elapse) ps;
  high_conflict_low_freq = keep (is_high_low cpu_freq elapse) ps;
  low_conflict_high_freq = keep (is_low_high cpu_freq elapse) ps;
  id = length (keep is_used ps);
}

abbrev one_if : SyncPerf → Bool → List SyncPerf
one_if p b = if b then p ∷ [] else []

classify_by :
    (used conflict frequency : Bool) (p : SyncPerf) (xs ys zs us : List SyncPerf)
    → (if used
        then classify conflict frequency p (record {
          high_conflict_high_freq = xs;
          high_conflict_low_freq = ys;
          low_conflict_high_freq = zs;
          id = length us + 1;
        })
        else record {
          high_conflict_high_freq = xs;
          high_conflict_low_freq = ys;
          low_conflict_high_freq = zs;
          id = length us;
        })
      ≡ record {
        high_conflict_high_freq = xs ++ one_if p (used && (conflict && frequency));
        high_conflict_low_freq = ys ++ one_if p (used && (conflict && not frequency));
        low_conflict_high_freq = zs ++ one_if p (used && (not conflict && frequency));
        id = length (us ++ one_if p used);
      }
classify_by true true true p xs ys zs us =
    rw (append-nil ys, append-nil zs, length-append us (p ∷ [])) refl
classify_by true true false p xs ys zs us =
    rw (append-nil xs, append-nil zs, length-append us (p ∷ [])) refl
classify_by true false true p xs ys zs us =
    rw (append-nil xs, append-nil ys, length-append us (p ∷ [])) refl
classify_by true false false p xs ys zs us =
    rw (append-nil xs, append-nil ys, append-nil zs, length-append us (p ∷ [])) refl
classify_by false conflict frequency p xs ys zs us =
    rw (append-nil xs, append-nil ys, append-nil zs, append-nil us) refl

add_entry-filtered :
    (cpu_freq elapse : ℕ) (ps : List SyncPerf) (p : SyncPerf)
    → add_entry cpu_freq elapse p (filtered cpu_freq elapse ps)
      ≡ filtered cpu_freq elapse (ps ++ p ∷ [])
add_entry-filtered cpu_freq elapse ps p =
    rw
      (
        keep-append (is_high_high cpu_freq elapse) ps (p ∷ []),
        keep-append (is_high_low cpu_freq elapse) ps (p ∷ []),
        keep-append (is_low_high cpu_freq elapse) ps (p ∷ []),
        keep-append is_used ps (p ∷ []),
      )
      (classify_by (is_used p) (high_conflict p.totals) (high_frequency cpu_freq elapse p.totals) p
        (keep (is_high_high cpu_freq elapse) ps) (keep (is_high_low cpu_freq elapse) ps)
        (keep (is_low_high cpu_freq elapse) ps) (keep is_used ps))

-- The report puts each mutex that was locked at least once into the list of its quadrant, in the
-- order of the entries and with the totals over all threads, leaves out those of low conflict and
-- low frequency, and counts the mutexes that were locked.
pub print-filtered :
    (cpu_freq elapse : ℕ) (d : SyncData) (threads n : ℕ)
    → print cpu_freq elapse d threads n ≡ filtered cpu_freq elapse (all_entries d threads n)
unfolding print
print-filtered cpu_freq elapse d threads zero = refl
print-filtered cpu_freq elapse d threads (suc n) =
    let p : SyncPerf = record { entry = n; totals = sum_threads d n threads } in
    ap (add_entry cpu_freq elapse p) (print-filtered cpu_freq elapse d threads n)
    ∙ add_entry-filtered cpu_freq elapse (all_entries d threads n) p

-- A mutex of which every one of `n` acquisitions waited, for a positive `n` up to 45210182, is
-- of high conflict exactly if `n` is at most 42949672, the largest number whose hundredfold fits 32
-- bits; above, the product overflows, and the report takes the mutex for one of low conflict.
pub conflict_overflow :
    (t : Totals)
    → t.access_count ≡ t.fail_count
    → 0 < t.fail_count
    → t.fail_count ≤ 45210182
    → high_conflict t ≡ leb t.fail_count 42949672
conflict_overflow t all some_fail few = ground arith
