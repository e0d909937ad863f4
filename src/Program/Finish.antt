-- ===== src/Program/Finish.antt =====
-- source/libdefault.cpp, `finalizer`, with what `print` of source/report.h does before it writes.
use sync_perf.Base.{
  ℕ, zero, suc, false, Option, none, some, List, [], ◌∷◌, ◌++◌, ltb, leb, ◌==◌, ◌||◌, if◌then◌else◌,
  length, update,
}
use sync_perf.Manager.Counters.{SyncData}
use sync_perf.Manager.Contexts.{Context}
use sync_perf.Manager.Entries.{get_entries_numb}
use sync_perf.Intercept.World.{Entry, World}
use sync_perf.Threads.Table.{Threads, Result, ok, aborted, ◌>>=◌}
use sync_perf.Threads.Calls.{finalize}
use sync_perf.Report.Totals.{Totals, sum_threads}
use sync_perf.Report.Contexts.{Text, Reals, get_call_stack_string}
use sync_perf.Report.Format.{codes}
use sync_perf.Report.Whole.{report}
use sync_perf.Program.Start.{Process}

-- `exec`: the pieces that `fgets` reads from the pipe, one behind the other; `none` is a pipe that
-- cannot be opened.
abbrev concat : List Text → Text
concat [] = []
concat (buffer ∷ buffers) = buffer ++ concat buffers

abbrev pub exec : Option (List Text) → Text
exec none = codes "ERROR"
exec (some buffers) = concat buffers

abbrev pub max_buf_size : ℕ
max_buf_size = 4096

-- `setFileName`: `readlink` gets the size of the buffer, and `none` is its -1.
unfoldable pub set_file_name : (readlink : ℕ → Option Text) → Result Text
set_file_name readlink = elim (readlink max_buf_size) [
  | none ↦ aborted
  | some name ↦ if (length name == 0) || leb max_buf_size (length name) then aborted else ok name
]

-- A row of `stacks` ends at its first 0.
unfoldable pub until_zero : List ℕ → List ℕ
until_zero [] = []
until_zero (a ∷ stack) = let rest = until_zero stack in if a == 0 then [] else a ∷ rest

-- `MAX_CALL_STACK_DEPTH * 50`
abbrev pub max_text : ℕ
max_text = 300

-- The assertion on the text of a call stack; `none` is an exception that nothing catches.
abbrev pub check_text : Option Text → Result Text
check_text none = aborted
check_text (some t) = if leb (length t) max_text then ok t else aborted

-- The loop over the call stacks of one mutex.
unfoldable pub line_info : (exec_at : ℕ → Text) → List Context → Result (List Text)
unfolding get_call_stack_string until_zero
line_info exec_at [] = ok []
line_info exec_at (c ∷ cs) = do
  t ← check_text (get_call_stack_string exec_at (until_zero c.stack) [])
  ts ← line_info exec_at cs
  ok (t ∷ ts)

-- The texts of one mutex: only a mutex that was locked has any.
abbrev pub entry_info : (exec_at : ℕ → Text) → Totals → List Context → Result (List Text)
entry_info exec_at t cs = if ltb 0 t.access_count then line_info exec_at cs else ok []

-- `assert (m->entry_index == i)`
abbrev pub check_index : ℕ → Entry → Result Entry
check_index i m = if m.entry_index == i then ok m else aborted

-- The loop over the mutexes, as far as it asks for texts.
unfoldable pub all_info :
    (exec_at : ℕ → Text) → SyncData → (ℕ → Entry) → (threads n : ℕ) → Result (ℕ → List Text)
unfolding line_info sum_threads
all_info exec_at d entries threads zero = ok (λ _. [])
all_info exec_at d entries threads (suc n) = do
  texts ← all_info exec_at d entries threads n
  m ← check_index n (entries n)
  ts ← entry_info exec_at (sum_threads d n threads) m.contexts
  ok (update texts n ts)

-- The command that is made of the program's file and an address.
abbrev pub addr2line_output :
    (addr2line : (file : Text) (a : ℕ) → Option (List Text)) → (file : Text) → ℕ → Text
addr2line_output addr2line file a = exec (addr2line file a)

-- `addr2line` is what the command that is made of a file name and an address writes, `rate` and
-- `frequency` are the quotients of the report, the second with the time of the last level, and
-- `show` prints a number.
module _ (reals : Reals) (rate : Totals → reals.Real)
    (frequency : (elapse : ℕ) → Totals → reals.Real) (show : reals.Real → Text)
    (addr2line : (file : Text) (a : ℕ) → Option (List Text)) (readlink : ℕ → Option Text) where
  -- `print`, from the tables: the text that it writes.
  unfoldable pub print_report : (cpu_freq : ℕ) → Threads → World → Result Text
  unfolding set_file_name all_info report get_entries_numb
  print_report cpu_freq s w = do
    file ← set_file_name readlink
    let n = get_entries_numb w.pool
    let elapse = (s.levels s.level).elapse
    texts ← all_info (addr2line_output addr2line file) w.counters w.entries s.thread_index n
    ok (report reals rate (frequency elapse) texts show cpu_freq elapse w.counters s.thread_index n)

  unfoldable pub finalizer : (cpu_freq tsc : ℕ) → Process → Result (Process × Text)
  unfolding finalize print_report
  finalizer cpu_freq tsc p = do
    s ← finalize tsc p.threads
    text ← print_report cpu_freq s p.world
    ok (record p { initialized = false; threads = s }, text)
