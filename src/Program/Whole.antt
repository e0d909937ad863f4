-- ===== src/Program/Whole.antt =====
-- A whole run: source/libdefault.cpp, `initializer`, the intercepted calls, and `finalizer`.
use sync_perf.Base.{
  false, ℕ, ◌≡◌, ◌<◌, refl, arith, Option, none, some, List, length, All, total, u32, update,
}
use sync_perf.Clock.{get_tsc, get_elapsed_cycle}
use sync_perf.Manager.Entries.{get_entries_numb}
use sync_perf.Mutex.State.{Kernel}
use sync_perf.Intercept.World.{UserMutex, World}
use sync_perf.Intercept.Linking.{IsLinked}
use sync_perf.Intercept.Steps.{Reach, Reach-IsLinked}
use sync_perf.Intercept.Ledger.{calls, Within, sum_threads-calls}
use sync_perf.Threads.Table.{Threads, Request, ok, max_thread_levels}
use sync_perf.Threads.Phases.{Event, run, run-InPhase}
use sync_perf.Threads.Calls.{finalize}
use sync_perf.Report.Totals.{Totals, sum_threads}
use sync_perf.Report.Quadrants.{all_entries, is_high_high, is_high_low, is_low_high}
use sync_perf.Report.Contexts.{Text, Reals, find_asymmetric_lock}
use sync_perf.Report.Stacks.{call_stack_map}
use sync_perf.Report.Texts.{Answers}
use sync_perf.Report.Format.{Lacks}
use sync_perf.Report.RoundTrip.{Seen, read_file}
use sync_perf.Report.Whole.{report, rows, read_file-report}
use sync_perf.Program.Start.{Host, Process, MapsZeros, initializer, initializer-starts}
use sync_perf.Program.Finish.{
  max_buf_size, set_file_name, addr2line_output, all_info, print_report, finalizer,
}
use sync_perf.Program.Texts.{then_ok, Fits, texts_of, texts_of-Lacks, all_info-texts}

-- The table after `finalize`.
abbrev stopped : (tsc : ℕ) → Threads → Threads
stopped tsc s =
    let l = s.levels s.level in
    record s {
      levels =
          update s.levels s.level
            (record l { elapse = get_elapsed_cycle l.start_time (get_tsc tsc) });
    }

finalize-stopped :
    (tsc : ℕ) (s : Threads) → s.level < max_thread_levels → finalize tsc s ≡ ok (stopped tsc s)
unfolding finalize
finalize-stopped tsc s h = ground arith

set_file_name_returns :
    (readlink : ℕ → Option Text) (file : Text)
    → readlink max_buf_size ≡ some file
    → 0 < length file
    → length file < max_buf_size
    → set_file_name readlink ≡ ok file
unfolding set_file_name
set_file_name_returns readlink file e some_name fits = ground arith

module _ (reals : Reals) (rate : Totals → reals.Real)
    (frequency : (elapse : ℕ) → Totals → reals.Real) (show : reals.Real → Text)
    (addr2line : (file : Text) (a : ℕ) → Option (List Text)) (readlink : ℕ → Option Text) where
  -- How the system answers: with the name of the program's file, which fits the buffer, and for an
  -- address with a question mark or with a path and a file name; and how a number prints. Neither a
  -- file name nor a number has the end of a line in it.
  pub record Answering (file : Text) (dir name : ℕ → Text) : Type 0 where
    pub file_eq : readlink max_buf_size ≡ some file
    pub some_file : 0 < length file
    pub file_fits : length file < max_buf_size
    pub answers : (a : ℕ) → Answers (addr2line_output addr2line file) dir name a
    pub one_line : (a : ℕ) → Lacks (name a)
    pub flat : (r : reals.Real) → Lacks (show r)

  module _ (file : Text) (dir name : ℕ → Text) where
    -- The texts of the call stacks of each mutex that was locked.
    abbrev pub texts : World → Threads → ℕ → List Text
    texts w s =
        texts_of (addr2line_output addr2line file) name w.counters w.entries s.thread_index
          w.pool.cur

    -- What the report is to say.
    abbrev pub account : (cpu_freq : ℕ) → World → Threads → Seen
    account cpu_freq w s =
        let elapse = (s.levels s.level).elapse in
        let entries = all_entries w.counters s.thread_index w.pool.cur in
        record {
          high_high =
              rows reals rate (frequency elapse) (texts w s) show (is_high_high cpu_freq elapse)
                entries;
          high_low =
              rows reals rate (frequency elapse) (texts w s) show (is_high_low cpu_freq elapse)
                entries;
          low_high =
              rows reals rate (frequency elapse) (texts w s) show (is_low_high cpu_freq elapse)
                entries;
          asym_locks =
              find_asymmetric_lock reals
                (call_stack_map reals rate (texts w s) w.counters s.thread_index w.pool.cur);
        }

    print_report_returns :
        Answering file dir name
        → (cpu_freq : ℕ) (w : World) (s : Threads) → IsLinked w
        → ((i : ℕ)
            → i < w.pool.cur
            → All (Fits (addr2line_output addr2line file) name) (w.entries i).contexts)
        → (text : Text) × (print_report reals rate frequency show addr2line readlink cpu_freq s w
            ≡ ok text)
          × (read_file text ≡ some (account cpu_freq w s))
    unfolding print_report get_entries_numb
    print_report_returns h cpu_freq w s p fits =
        let elapse = (s.levels s.level).elapse in
        (
          report reals rate (frequency elapse) (texts w s) show cpu_freq elapse w.counters
              s.thread_index w.pool.cur,
          then_ok (set_file_name readlink) _ file _
              (set_file_name_returns readlink file h.file_eq h.some_file h.file_fits)
              (then_ok
                (all_info (addr2line_output addr2line file) w.counters w.entries s.thread_index
                  w.pool.cur)
                _ (texts w s) _
                (all_info-texts (addr2line_output addr2line file) name dir h.answers w.counters
                  w.entries s.thread_index w.pool.cur p.indexed fits)
                refl),
          read_file-report reals rate (frequency elapse) (texts w s) show h.flat
              (texts_of-Lacks (addr2line_output addr2line file) name h.one_line w.counters w.entries
                s.thread_index w.pool.cur)
              cpu_freq elapse w.counters s.thread_index w.pool.cur,
        )

    -- A run from the start of the program to its end: `initializer` returns, then come any
    -- intercepted mutex calls and waits that return and any creations, starts, ends and joins of
    -- threads, and `finalizer` is called. Then `finalizer` returns, a reader of the file that it
    -- writes gets back the mutexes of the three quadrants with their rates and the file names of
    -- their call stacks, and the asymmetric locks; and the access count behind each mutex's rates is
    -- the number of its locks and trylocks, modulo 2 ^ 32. The conditions are that anonymous memory
    -- reads as zeros, that the first word of each mutex is NULL at the start, that the system answers
    -- as documented, that the callers' indices are within the table, that no level lies behind
    -- the table of levels, and that the text of no call stack is longer than 300 characters.
    pub finalizer_reports :
        Answering file dir name
        → (host : Host) (r : Request) (self : ℕ) (users : ℕ → UserMutex) (p : Process)
        → MapsZeros host
        → ((a : ℕ) → (users a).pointer ≡ none)
        → initializer host r self users ≡ ok p
        → (k : Kernel) (w : World) (made : Reach k p.world w) → Within made
        → (es : List Event) (s : Threads) → run es p.threads ≡ ok s
        → s.level < max_thread_levels
        → ((i : ℕ)
            → i < w.pool.cur
            → All (Fits (addr2line_output addr2line file) name) (w.entries i).contexts)
        → (cpu_freq tsc : ℕ)
        → (p' : Process) × (text : Text) × (finalizer reals rate frequency show addr2line readlink
              cpu_freq tsc
              (record p { threads = s; world = w })
            ≡ ok (p', text))
          × (read_file text ≡ some (account cpu_freq w p'.threads))
          × ((m : ℕ)
              → m < w.pool.cur
              → (sum_threads w.counters m p'.threads.thread_index).access_count
                ≡ u32 (total (λ n. n) p'.threads.thread_index (λ t. calls made m t)))
    unfolding finalizer
    finalizer_reports h host r self users p z unlinked e k w made within es s ran low fits cpu_freq
          tsc =
        let (fresh, _, clear, phase, _, _) = initializer-starts host r self users p z unlinked e in
        let linked = Reach-IsLinked k p.world w fresh made in
        let (phase', _) = run-InPhase es p.threads s phase ran in
        let (text, written, read) = print_report_returns h cpu_freq w (stopped tsc s) linked fits in
        (
          record p { threads = stopped tsc s; world = w; initialized = false },
          text,
          then_ok (finalize tsc s) _ (stopped tsc s) _ (finalize-stopped tsc s low) (
              then_ok
                (print_report reals rate frequency show addr2line readlink cpu_freq (stopped tsc s)
                  w)
                _ text _ written refl),
          read,
          λ m below.
              sum_threads-calls k p.world w made m s.thread_index fresh clear within
                (omega (arith, linked.room, linked.table)) phase'.fits,
        )
