-- ===== src/Examples/Program.antt =====
-- A run in which one thread locks one mutex once, and creates and joins another thread.
use sync_perf.Base.{
  ◌≤◌, ◌%◌, ◌+◌, ℕ, ◌≡◌, ◌<◌, refl, sym, ap, arith, true, none, some, Option, List, [], ◌∷◌, ◌++◌,
  All, total, u32,
}
use sync_perf.Mutex.State.{done, zeroed}
use sync_perf.Intercept.World.{World, Caller, UserMutex, pthread_mutex_lock}
use sync_perf.Intercept.Steps.{IsFresh, Reach, start, next, lock}
use sync_perf.Intercept.Ledger.{Clear, calls, Within}
use sync_perf.Threads.Table.{Threads, ok, mark_thread_exit, thread_started}
use sync_perf.Threads.Offset.{esp_offset, esp_offset_exact}
use sync_perf.Threads.Phases.{InPhase, run}
use sync_perf.Report.Totals.{sum_threads}
use sync_perf.Report.Contexts.{Text, has_separator}
use sync_perf.Report.Format.{codes, decimal, Lacks-decimal}
use sync_perf.Report.RoundTrip.{read_file}
use sync_perf.Report.Texts.{newline}
use sync_perf.Program.Start.{
  Host, Process, MapsZeros, zero_data, new_pool, initializer, initializer-starts,
}
use sync_perf.Program.Finish.{addr2line_output, until_zero, finalizer}
use sync_perf.Program.Texts.{Fits}
use sync_perf.Program.Whole.{Answering, account, finalizer_reports}
use sync_perf.Examples.Data.{linux, alone}
use sync_perf.Examples.Reports.{whole, by_main, fork_and_join}

abbrev host : Host
host = record {
  sigaction = true;
  map_entries = λ r. some (λ _. record { mutex = zeroed; contexts = []; entry_index = 0 });
  map_counters = λ r. some (λ _. zero_data);
  entry_size = 7264;
  data_size = 32;
}

host-MapsZeros : MapsZeros host
host-MapsZeros = record {
  zeros = λ r d i e anonymous inside. sym (ap (λ o. elim o [ none ↦ zero_data | some f ↦ f i ]) e);
}

abbrev new_users : ℕ → UserMutex
new_users _ = record { pointer = none; kind = 0 }

begun : (p : Process) × (initializer host by_main 7 new_users ≡ ok p)
unfolding initializer
begun = (_, refl)

abbrev locker : Caller
locker = record {
  index = 0;
  return_address = 4096;
  esp_offset = 8;
  stack = 4096 ∷ 0 ∷ [];
  call = alone zeroed;
}

locked : (w : World) × (pthread_mutex_lock linux locker 5 begun.0.world ≡ done (0, w))
unfolding pthread_mutex_lock begun initializer new_pool
locked = (_, refl)

made : Reach linux begun.0.world locked.0
made = next start (lock locker 5 0 locked.1)

ran : (s : Threads) × (run fork_and_join begun.0.threads ≡ ok s)
unfolding run begun initializer mark_thread_exit
ran = (_, refl)

-- The program's file, and each address on its first line.
abbrev program : Text
program = codes "/bin/program"

abbrev dir : ℕ → Text
dir _ = codes "/src"

abbrev name : ℕ → Text
name _ = codes "a.c:1"

abbrev answer : Text → ℕ → Option (List Text)
answer file a = some ((dir a ++ b'/' ∷ []) ∷ (name a ++ newline ∷ []) ∷ [])

answer-Answering :
    Answering whole
      (λ t. t.fail_count)
      (λ elapse t. t.access_count)
      decimal
      answer
      (λ size. some program)
      program
      dir
      name
unfolding has_separator
answer-Answering = record {
  file_eq = refl;
  some_file = omega arith;
  file_fits = omega arith;
  answers = λ a. record { output = λ known. refl; plain = refl };
  one_line = λ a. omega arith;
  flat = Lacks-decimal;
}

locked-Fits :
    (i : ℕ)
    → i < locked.0.pool.cur
    → All (Fits (addr2line_output answer program) name) (locked.0.entries i).contexts
unfolding locked pthread_mutex_lock begun initializer new_pool until_zero
locked-Fits i below = let is_first : i ≡ 0 = omega (arith, below) in rw is_first (omega arith, tt)

finalizer_reports_example :
    (p' : Process) × (text : Text) × (finalizer whole
        (λ t. t.fail_count)
        (λ elapse t. t.access_count)
        decimal
        answer
        (λ size. some program)
        1000
        900
        (record begun.0 { threads = ran.0; world = locked.0 })
      ≡ ok (p', text))
    × (read_file text
        ≡ some (
            account whole
              (λ t. t.fail_count)
              (λ elapse t. t.access_count)
              decimal
              answer
              (λ size. some program)
              program
              dir
              name
              1000
              locked.0
              p'.threads))
    × ((m : ℕ)
        → m < locked.0.pool.cur
        → (sum_threads locked.0.counters m p'.threads.thread_index).access_count
          ≡ u32 (total (λ n. n) p'.threads.thread_index (λ t. calls made m t)))
unfolding made Within ran run begun initializer mark_thread_exit
finalizer_reports_example =
    finalizer_reports whole (λ t. t.fail_count) (λ elapse t. t.access_count) decimal answer
      (λ size. some program) program dir name answer-Answering host by_main 7 new_users begun.0
      host-MapsZeros (λ a. refl) begun.1 linux locked.0 made (tt, omega arith) fork_and_join ran.0
      ran.1 (omega arith) locked-Fits 1000 900

initializer-starts_example :
    IsFresh begun.0.world
    × (begun.0.world.pool.total ≡ 1000000)
    × Clear begun.0.world
    × InPhase begun.0.threads
    × (begun.0.threads.alive ≡ 1)
    × (begun.0.threads.level ≡ 0)
initializer-starts_example =
    initializer-starts host by_main 7 new_users begun.0 host-MapsZeros (λ a. refl) begun.1

-- The descriptor of a thread, and a stack pointer 10000 bytes below it.
abbrev descriptor : ℕ
descriptor = 140737351940096

esp_offset_exact_example :
    let current = (thread_started 0 descriptor 41 begun.0.threads).infos 0 in
    (descriptor < current.stack_top)
    × (current.stack_top ≤ descriptor + 4096)
    × (current.stack_top % 4096 ≡ 0)
    × (esp_offset current 140737351930096 + 140737351930096 ≡ current.stack_top)
    × (0 < esp_offset current 140737351930096)
esp_offset_exact_example =
    esp_offset_exact 0 descriptor 41 140737351930096 begun.0.threads (omega arith) (omega arith)
      (omega arith)
