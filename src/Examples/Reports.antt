-- ===== src/Examples/Reports.antt =====
-- The report on counters, and the levels of a run with three threads.
use sync_perf.Base.{
  ltb, ◌↔◌, true, ℕ, ◌+◌, ◌*◌, ◌≡◌, refl, arith, [], ◌∷◌, List, ◌==◌, if◌then◌else◌, false,
}
use sync_perf.Manager.Counters.{SyncData}
use sync_perf.Report.Contexts.{Reals, has_separator, find_asymmetric_lock}
use sync_perf.Report.Asymmetry.{IsRealOrder, FarApart}
use sync_perf.Report.Updates.{lists, rates_of}
use sync_perf.Report.Texts.{Answers, newline}
use sync_perf.Report.Stacks.{call_stack_map, all_stacks, report_asymmetric}
use sync_perf.Threads.Table.{Threads, Request, ok, initialize, alloc_thread_index, mark_thread_exit}
use sync_perf.Threads.Calls.{
  ThreadCall, thread_create, thread_join, call_threads, finalize, unjoined, failures, Honest,
  alive_counts_calls,
}
use sync_perf.Threads.Times.{levels_add_up}
use sync_perf.Threads.Times.Events.{time_of_levels, gaps, InOrder}
use sync_perf.Threads.Phases.{
  Event, create, exit, run, switches, InPhase, Advances, level_counts_phases, create_returns,
}
use sync_perf.Threads.Ranges.{ranges_match_levels}
use sync_perf.Examples.Data.{no_stat}

-- Each cell holds 50 accesses, of which 10 waited.
abbrev pub busy : SyncData
busy = λ _. record no_stat { access_count = 50; fail_count = 10; futex_wait = 700 }

abbrev pub by_main : Request
by_main = record { current = 0; tid = 40; tsc = λ n. n * 10 }

begun : (s : Threads) × (initialize by_main 7 ≡ ok s)
unfolding initialize
begun = (_, refl)

-- Two children.
abbrev two_children : List Event
two_children = create by_main ∷ create by_main ∷ []

ran :
    (s : Threads) × (run two_children begun.0 ≡ ok s)
    × (s.alive ≡ 3)
    × ((s.levels s.level).begin_index ≡ 1)
    × ((s.levels s.level).end_index ≡ 2)
unfolding run alloc_thread_index begun
ran = (_, refl, refl, refl, refl)

level_counts_phases_example : InPhase ran.0 × (ran.0.level ≡ switches two_children 1)
level_counts_phases_example = level_counts_phases by_main 7 two_children begun.0 ran.0 begun.1 ran.1

ranges_match_levels_example :
    ((ran.0.levels ran.0.level).end_index + 1 ≡ ran.0.thread_index)
    × ((ran.0.infos 2).level_index + (if 2 == (ran.0.levels ran.0.level).begin_index then 1 else 0)
        ≡ ran.0.level)
ranges_match_levels_example =
    ranges_match_levels by_main 7 two_children begun.0 ran.0 2 begun.1 ran.1 (omega (arith, ran.2))
      (omega (arith, ran.3)) (omega (arith, ran.4))

abbrev later : Request
later = record { current = 0; tid = 40; tsc = λ n. n * 10 + 50 }

-- A child is created, and joined.
abbrev pub fork_and_join : List Event
fork_and_join = create later ∷ exit (λ n. n * 10 + 200) ∷ []

forked : (s : Threads) × (run fork_and_join begun.0 ≡ ok s) × (s.alive ≡ 1)
unfolding run alloc_thread_index mark_thread_exit begun
forked = (_, refl, refl)

finished : (s : Threads) × (finalize 500 forked.0 ≡ ok s)
unfolding finalize forked begun run alloc_thread_index mark_thread_exit
finished = (_, refl)

levels_add_up_example :
    time_of_levels (finished.0.level + 1) finished.0 + gaps fork_and_join 1 + 10 ≡ 500
unfolding InOrder
levels_add_up_example =
    levels_add_up by_main 7 500 fork_and_join begun.0 forked.0 finished.0 begun.1 forked.1
      finished.1 (omega arith, omega arith, (omega arith, omega arith, (omega arith, omega arith)))

-- One creation fails, another succeeds, and the child is joined.
abbrev one_fails : List ThreadCall
one_fails = thread_create later 11 ∷ thread_create later 0 ∷ thread_join 0 (λ n. n * 10 + 200) ∷ []

called : (s : Threads) × (call_threads one_fails begun.0 ≡ ok s)
unfolding call_threads alloc_thread_index mark_thread_exit begun
called = (_, refl)

alive_counts_calls_example :
    (called.0.alive ≡ 1 + unjoined one_fails 0 + failures one_fails)
    × (called.0.multithreading ≡ ltb 0 (unjoined one_fails 0 + failures one_fails))
unfolding Honest
alive_counts_calls_example =
    alive_counts_calls by_main 7 one_fails begun.0 called.0 begun.1 (tt, (tt, (omega arith, tt)))
      called.1

-- One thread is alive at the given level.
abbrev alone_at : ℕ → Threads
alone_at n = record {
  infos = begun.0.infos;
  levels = begun.0.levels;
  thread_index = 1500;
  alive = 1;
  level = n;
  multithreading = false;
}

alone_at_two-InPhase : InPhase (alone_at 2)
alone_at_two-InPhase = record {
  some_alive = omega arith;
  below = omega arith;
  numbered = omega arith;
  fits = omega arith;
  flag = refl;
  parity = refl;
}

create_returns_example :
    (s' : Threads) × (alloc_thread_index by_main (alone_at 2) ≡ ok s')
    × Advances (create by_main) (alone_at 2) s'
create_returns_example =
    create_returns by_main (alone_at 2) alone_at_two-InPhase
      (record { index_fits = omega arith; alive_fits = omega arith; level_fits = omega arith })

-- Real numbers that are whole.
abbrev pub whole : Reals
whole = record { Real = ℕ; below = λ a b. ltb a b; over_ten = λ a b. ltb (a + 10) b }

whole-IsRealOrder : IsRealOrder whole
whole-IsRealOrder = record {
  below_self = λ a. ground arith;
  below_asym = λ a b h. ground arith;
  le_trans = λ a b c h k. ground arith;
  over_ten_self = λ a. ground arith;
  over_ten_mono = λ a b c d h k l. ground arith;
}

-- Both mutexes are locked from one call stack.
report_asymmetric_example :
    (lists (1 ∷ []) (
        find_asymmetric_lock whole
          (call_stack_map whole (λ t. t.fail_count) (λ i. (1 ∷ []) ∷ []) busy 2 2))
      ≡ true)
    ↔ FarApart whole (
        rates_of whole
          (1 ∷ [])
          (all_stacks whole (λ t. t.fail_count) (λ i. (1 ∷ []) ∷ []) busy 2 2))
report_asymmetric_example =
    report_asymmetric whole (λ t. t.fail_count) (λ i. (1 ∷ []) ∷ []) whole-IsRealOrder busy 2 2
      (1 ∷ [])

-- Every address is in the file `x` of the directory `d`.
abbrev in_x : ℕ → List ℕ
in_x a = b'd' ∷ b'/' ∷ b'x' ∷ newline ∷ []

in_x-Answers : (a : ℕ) → Answers in_x (λ _. b'd' ∷ []) (λ _. b'x' ∷ []) a
unfolding has_separator
in_x-Answers a = record { output = λ _. refl; plain = refl }
