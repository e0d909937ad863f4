-- ===== src/Examples/Traces.antt =====
-- Two threads under the tracer.
use sync_perf.Base.{
  ℕ, ◌≡◌, ◌≢◌, refl, arith, true, false, none, some, List, [], ◌∷◌, length, keep, find, put, modify,
  nat_key, u32,
}
use sync_perf.Tracer.Access.{Access, do_mem_access, replay, mem_access_count, shared_access_count}
use sync_perf.Tracer.Callbacks.{Tool, Operands, Event, begins, locks, unlocks, executes, run, start}
use sync_perf.Tracer.Sharing.{threads_at, summary, replay-summary}
use sync_perf.Tracer.Totals.{is_shared, fini_counts}
use sync_perf.Tracer.Missed.{even_reads_missed}
use sync_perf.Tracer.Image.{Ins, Addresses}

abbrev touches : ℕ → ℕ → Access
touches a i = record { addr = a; by = i }

-- Address 16 by both threads, address 24 by one.
abbrev history : List Access
history = touches 16 0 ∷ touches 24 0 ∷ touches 16 1 ∷ []

replay-summary_example : find 16 (replay 2 history []) ≡ summary 2 (threads_at 16 history)
replay-summary_example = replay-summary 2 16 history (omega arith)

fini_counts_example :
    (mem_access_count (replay 2 history []) ≡ u32 (length history))
    × (shared_access_count 2 (replay 2 history [])
        ≡ u32 (length (keep (is_shared history) history)))
fini_counts_example = fini_counts 2 history (omega arith)

-- Two of the three accesses are of a shared address.
counted : shared_access_count 2 (replay 2 history []) ≡ 2
unfolding shared_access_count replay do_mem_access find put modify
counted = refl

written : ◌≢◌ {A = ℕ} 32 16
written = λ e. absurd (omega (arith, e))

-- A write of 16 and an aligned read of 32.
abbrev moves : Operands
moves = record { is_mem_access = true; is_stack_access = false; waddr = 16; raddr = 32; raddr2 = 0 }

abbrev events : List Event
events =
    begins 0
    ∷ begins 1
    ∷ locks 400 0
    ∷ executes 0 moves
    ∷ locks 400 1
    ∷ executes 1 moves
    ∷ unlocks 1
    ∷ executes 1 moves
    ∷ []

ran :
    (t : Tool) × (run events (start 2 (400 ∷ [])) ≡ some t)
    × ((t.counters 1).instcount ≡ 1)
    × ((t.counters 1).critical_sections ≡ 1)
unfolding run do_mem_access find put modify
ran = (_, refl, refl, refl)

-- The address 32 was read three times, and twice while the accesses were recorded.
even_reads_missed_example : find 32 ran.0.mem_access_map ≡ none
even_reads_missed_example =
    even_reads_missed 2 32 (400 ∷ []) events ran.0 refl
      (tt, (tt, (tt, (written, (tt, (written, (tt, (written, tt)))))))) ran.1

-- `mov` from memory to a register.
abbrev load : Ins
load = record {
  is_original = true;
  has_fall_through = true;
  is_memory_write = false;
  is_memory_read = true;
  has_memory_read2 = false;
  is_stack_read = false;
  is_stack_write = false;
}

abbrev at_32 : Addresses
at_32 = record { memory_write = 0; memory_read = 32; memory_read2 = 0 }
