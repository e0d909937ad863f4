-- ===== src/Tracer/Runs.antt =====
-- The map of accessed addresses over a run, and the reads that it misses
-- (diagnosis_tool/src/sync_track.cpp, `ProcessInst`).
use sync_perf.Base.{
  ℕ, ◌<◌, ◌≡◌, refl, arith, some, List, [], ◌∷◌, ◌++◌, All, ◌==◌, if◌then◌else◌, Bool, Bool-cases,
  not, ◌&&◌, inl, inr,
}
use sync_perf.Tracer.Access.{MemMap, Access, do_mem_access, replay}
use sync_perf.Tracer.Callbacks.{
  Tool, Operands, Event, begins, ends, locks, unlocks, executes, handle, run, process_inst,
  memory_accesses, write_access, read_access, start, read_tested,
}
use sync_perf.Tracer.Isolation.{and_then-eq-some}

-- The map comes from some sequence of accesses by threads of the tool.
abbrev pub Replays : (total_threads : ℕ) → MemMap → Type 0
Replays total_threads m =
    (h : List Access) × All (λ x. x.by < total_threads) h × (replay total_threads h [] ≡ m)

replay-snoc :
    (total_threads : ℕ) (h : List Access) (x : Access) (m : MemMap)
    → replay total_threads (h ++ x ∷ []) m
      ≡ (do_mem_access total_threads x.addr x.by (replay total_threads h m)).0
unfolding replay
replay-snoc total_threads [] x m = refl
replay-snoc total_threads (y ∷ h) x m =
    replay-snoc total_threads h x (do_mem_access total_threads y.addr y.by m).0

All-snoc :
    (total_threads : ℕ) (h : List Access) (x : Access)
    → All (λ y. y.by < total_threads) h
    → x.by < total_threads
    → All (λ y. y.by < total_threads) (h ++ x ∷ [])
All-snoc total_threads [] x a b = (b, tt)
All-snoc total_threads (y ∷ h) x a b = (a.0, All-snoc total_threads h x a.1 b)

access-Replays :
    (total_threads a i : ℕ) (m : MemMap)
    → i < total_threads
    → Replays total_threads m
    → Replays total_threads (do_mem_access total_threads a i m).0
access-Replays total_threads a i m b (h, known, e) =
    let x : Access = record { addr = a; by = i } in
    (
      h ++ x ∷ [],
      All-snoc total_threads h x known b,
      rw (replay-snoc total_threads h x []) (rw e refl),
    )

module _ (n i : ℕ) (b : i < n) where
  write-Replays : (o : Operands) (m : MemMap) → Replays n m → Replays n (write_access n i o m).0
  unfolding write_access
  write-Replays o m r = elim (Bool-cases (o.waddr == 0)) [
    | inl absent ↦ rw absent r
    | inr present ↦ rw present (access-Replays n o.waddr i m b r)
  ]

  read-Replays :
      (raddr : ℕ) (p : MemMap × Bool) → Replays n p.0 → Replays n (read_access n i raddr p).0
  unfolding read_access
  read-Replays raddr (m, s) r = elim (Bool-cases (read_tested raddr s)) [
    | inl odd ↦ rw odd (access-Replays n raddr i m b r)
    | inr skipped ↦ rw skipped r
  ]

  memory_accesses-Replays :
      (o : Operands) (m : MemMap) → Replays n m → Replays n (memory_accesses n i o m)
  unfolding memory_accesses
  memory_accesses-Replays o m r =
      let first = write_access n i o m in
      read-Replays o.raddr2 (read_access n i o.raddr first)
        (read-Replays o.raddr first (write-Replays o m r))
  -- The thread is one of the tool's when an instruction is counted.

process_inst-known :
    (i : ℕ) (o : Operands) (t t' : Tool)
    → process_inst i o t ≡ some t'
    → (i < t.total_threads) × (t'.total_threads ≡ t.total_threads)
unfolding process_inst
process_inst-known i o t t' h = ground arith

-- The instruction is recorded, and its operands are on no stack.
abbrev records : ℕ → Operands → Tool → Bool
records i o t = t.recording i && (o.is_mem_access && not o.is_stack_access)

process_inst-map :
    (i : ℕ) (o : Operands) (t t' : Tool)
    → process_inst i o t ≡ some t'
    → t'.mem_access_map ≡ (
        if records i o t
        then memory_accesses t.total_threads i o t.mem_access_map
        else t.mem_access_map)
unfolding process_inst
process_inst-map i o t t' h = ground arith

process_inst-Replays :
    (i : ℕ) (o : Operands) (t t' : Tool)
    → process_inst i o t ≡ some t'
    → Replays t.total_threads t.mem_access_map
    → Replays t.total_threads t'.mem_access_map
process_inst-Replays i o t t' h r =
    let known = (process_inst-known i o t t' h).0 in
    rw (process_inst-map i o t t' h) (elim (Bool-cases (records i o t)) [
      | inl counted ↦
          rw counted (memory_accesses-Replays t.total_threads i known o t.mem_access_map r)
      | inr left ↦ rw left r
    ])

-- What an event leaves.
Kept : Tool → Tool → Type 0
Kept t t' = (t'.total_threads ≡ t.total_threads) × (t'.mem_access_map ≡ t.mem_access_map)

Kept-Replays :
    (t t' : Tool)
    → Kept t t'
    → Replays t.total_threads t.mem_access_map
    → (t'.total_threads ≡ t.total_threads) × Replays t.total_threads t'.mem_access_map
unfolding Kept
Kept-Replays t t' k r = (k.0, rw k.1 r)

handle-Replays :
    (e : Event) (t t' : Tool)
    → handle e t ≡ some t'
    → Replays t.total_threads t.mem_access_map
    → (t'.total_threads ≡ t.total_threads) × Replays t.total_threads t'.mem_access_map
unfolding handle Kept
handle-Replays (begins i) t t' h r = Kept-Replays t t' (ground arith) r
handle-Replays (ends i) t t' h r = Kept-Replays t t' (ground arith) r
handle-Replays (locks a i) t t' h r = Kept-Replays t t' (ground arith) r
handle-Replays (unlocks i) t t' h r = Kept-Replays t t' (ground arith) r
handle-Replays (executes i o) t t' h r =
    ((process_inst-known i o t t' h).1, process_inst-Replays i o t t' h r)

run-Replays_from :
    (es : List Event) (t t' : Tool)
    → run es t ≡ some t'
    → Replays t.total_threads t.mem_access_map
    → Replays t.total_threads t'.mem_access_map
unfolding run
run-Replays_from [] t t' h r = let same : t ≡ t' = cc in rw (← same) r
run-Replays_from (e ∷ es) t t' h r =
    let (u, h₁, h₂) = and_then-eq-some (handle e t) (run es) t' h in
    let (same, r₁) = handle-Replays e t u h₁ r in
    rw (← same) (run-Replays_from es u t' h₂ (rw same r₁))

-- In every run of the tool the map of the addresses is the one that some sequence of accesses by
-- threads of the tool produces, whichever locks, instructions and threads the run has: the theorems on
-- such sequences hold of the map at the end of a run.
pub run-Replays :
    (n : ℕ) (sites : List ℕ) (es : List Event) (t' : Tool)
    → run es (start n sites) ≡ some t'
    → Replays n t'.mem_access_map
unfolding replay
run-Replays n sites es t' h = run-Replays_from es (start n sites) t' h ([], tt, refl)
