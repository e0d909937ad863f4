-- ===== src/Threads/Times/Switches.antt =====
-- What a creation and an exit do to the times of the levels (source/xthread.h).
use sync_perf.Base.{ℕ, ◌+◌, ◌<◌, ◌≡◌, arith}
use sync_perf.Clock.{get_tsc, get_elapsed_cycle}
use sync_perf.Threads.Table.{Threads, Request, ok, alloc_thread_index, mark_thread_exit}

-- A level stopped at the reading `stop`, and the next started at `start`.
pub record Switched (stop start : ℕ) (s s' : Threads) : Type 0 where
  pub next_level : s'.level ≡ s.level + 1
  pub earlier : (i : ℕ) → i < s.level → (s'.levels i).elapse ≡ (s.levels i).elapse
  pub stopped :
      (s'.levels s.level).elapse ≡ get_elapsed_cycle (s.levels s.level).start_time (get_tsc stop)
  pub begun : (s'.levels (s.level + 1)).start_time ≡ get_tsc start

pub record Stayed (s s' : Threads) : Type 0 where
  pub same_level : s'.level ≡ s.level
  pub earlier : (i : ℕ) → i < s.level → (s'.levels i).elapse ≡ (s.levels i).elapse
  pub begun : (s'.levels s.level).start_time ≡ (s.levels s.level).start_time

pub fork-Switched :
    (r : Request) (s s' : Threads)
    → s.alive ≡ 1
    → alloc_thread_index r s ≡ ok s'
    → Switched (r.tsc 1) (r.tsc 2) s s'
unfolding alloc_thread_index
fork-Switched r s s' one e = record {
  next_level = ground arith;
  earlier = λ i below. ground arith;
  stopped = ground arith;
  begun = ground arith;
}

pub create-Stayed :
    (r : Request) (s s' : Threads) → 1 < s.alive → alloc_thread_index r s ≡ ok s' → Stayed s s'
unfolding alloc_thread_index
create-Stayed r s s' several e = record {
  same_level = ground arith;
  earlier = λ i below. ground arith;
  begun = ground arith;
}

pub join-Switched :
    (tsc : ℕ → ℕ) (s s' : Threads)
    → s.alive ≡ 2
    → mark_thread_exit tsc s ≡ ok s'
    → Switched (tsc 0) (tsc 1) s s'
unfolding mark_thread_exit
join-Switched tsc s s' two e = record {
  next_level = ground arith;
  earlier = λ i below. ground arith;
  stopped = ground arith;
  begun = ground arith;
}

pub exit-Stayed :
    (tsc : ℕ → ℕ) (s s' : Threads) → 2 < s.alive → mark_thread_exit tsc s ≡ ok s' → Stayed s s'
unfolding mark_thread_exit
exit-Stayed tsc s s' several e = record {
  same_level = ground arith;
  earlier = λ i below. ground arith;
  begun = ground arith;
}
