-- ===== src/Tracer/Missed.antt =====
-- The reads that the map of the accessed addresses misses (diagnosis_tool/src/sync_track.cpp,
-- `ProcessInst`).
use sync_perf.Base.{
  ℕ, ◌∙◌, ◌%◌, ◌≡◌, ◌≢◌, refl, arith, Option, none, some, List, [], ◌∷◌, All, ◌==◌, Bool,
  Bool-cases, inl, inr, find, find-put, find-modify, nat_key,
}
use sync_perf.Tracer.Access.{MemTrack, MemMap, touch, do_mem_access, found}
use sync_perf.Tracer.Callbacks.{
  Tool, Operands, Event, begins, ends, locks, unlocks, executes, handle, run, thread_begin,
  thread_end, process_lock, process_unlock, process_inst, memory_accesses, write_access,
  read_access, start, read_tested,
}
use sync_perf.Tracer.Isolation.{and_then-eq-some}

found-other :
    (n a b i : ℕ) (m : MemMap) (o : Option MemTrack)
    → find b m ≡ o
    → a ≢ b
    → find a (found n b i m o).0 ≡ find a m
found-other n a b i m none e other =
    ground (arith, find-put a b (record { thread_id = i; access_count = 1 }) m)
found-other n a b i m (some t) e other = ground (arith, find-modify a b (touch n i) m t e)

-- An access leaves the entries of the other addresses.
access-other : (n a b i : ℕ) (m : MemMap) → a ≢ b → find a (do_mem_access n b i m).0 ≡ find a m
unfolding do_mem_access
access-other n a b i m other = found-other n a b i m (find b m) refl other

module _ (n a i : ℕ) (even : a % 2 ≡ 0) where
  write-other :
      (o : Operands) (m : MemMap) → a ≢ o.waddr → find a (write_access n i o m).0 ≡ find a m
  unfolding write_access
  write-other o m other = elim (Bool-cases (o.waddr == 0)) [
    | inl absent ↦ rw absent refl
    | inr present ↦ rw present (access-other n a o.waddr i m other)
  ]

  -- Only an odd address passes the test of a read.
  read-even : (raddr : ℕ) (p : MemMap × Bool) → find a (read_access n i raddr p).0 ≡ find a p.0
  unfolding read_access
  read-even raddr (m, s) = elim (Bool-cases (read_tested raddr s)) [
    | inl odd ↦ rw odd (access-other n a raddr i m (ground (arith, odd, even)))
    | inr skipped ↦ rw skipped refl
  ]

  memory_accesses-even :
      (o : Operands) (m : MemMap) → a ≢ o.waddr → find a (memory_accesses n i o m) ≡ find a m
  unfolding memory_accesses
  memory_accesses-even o m other =
      let first = write_access n i o m in
      read-even o.raddr2 (read_access n i o.raddr first)
      ∙ read-even o.raddr first
      ∙ write-other o m other

-- The instruction, if it is one, does not write the address.
abbrev pub Spares : ℕ → Event → Type 0
Spares a (begins i) = Unit
Spares a (ends i) = Unit
Spares a (locks r i) = Unit
Spares a (unlocks i) = Unit
Spares a (executes i o) = a ≢ o.waddr

handle-even :
    (a : ℕ) (e : Event) (t t' : Tool)
    → a % 2 ≡ 0
    → Spares a e
    → handle e t ≡ some t'
    → find a t'.mem_access_map ≡ find a t.mem_access_map
unfolding handle thread_begin thread_end process_lock process_unlock process_inst
handle-even a (begins i) t t' even spared h = ground arith
handle-even a (ends i) t t' even spared h = ground arith
handle-even a (locks r i) t t' even spared h = ground arith
handle-even a (unlocks i) t t' even spared h = ground arith
handle-even a (executes i o) t t' even spared h =
    ground (arith, memory_accesses-even t.total_threads a i even o t.mem_access_map spared)

run-even :
    (a : ℕ) (es : List Event) (t t' : Tool)
    → a % 2 ≡ 0
    → All (Spares a) es
    → run es t ≡ some t'
    → find a t'.mem_access_map ≡ find a t.mem_access_map
unfolding run
run-even a [] t t' even spared h = cc
run-even a (e ∷ es) t t' even spared h =
    let (u, h₁, h₂) = and_then-eq-some (handle e t) (run es) t' h in
    run-even a es u t' even spared.1 h₂ ∙ handle-even a e t u even spared.0 h₁

-- In no run of the tool is an even address recorded that no instruction writes, however many of the
-- instructions read it, by the first or by the second operand, and whatever else they read and
-- write.
pub even_reads_missed :
    (n a : ℕ) (sites : List ℕ) (es : List Event) (t' : Tool)
    → a % 2 ≡ 0
    → All (Spares a) es
    → run es (start n sites) ≡ some t'
    → find a t'.mem_access_map ≡ none
unfolding find
even_reads_missed n a sites es t' even spared h = run-even a es (start n sites) t' even spared h
