-- ===== src/Tracer/Callbacks.antt =====
-- The callbacks that Pin makes at a thread's start and end, after each lock, before each unlock
-- and before each instrumented instruction (diagnosis_tool/src/sync_track.cpp).
use sync_perf.Base.{
  ℕ, ◌+◌, ◌%◌, Bool, true, false, not, ◌&&◌, ◌||◌, Option, none, some, List, [], ◌∷◌, ◌==◌, ltb,
  if◌then◌else◌, inc32, update,
}
use sync_perf.Tracer.Access.{MemMap, do_mem_access}

-- `SyncData`, for one thread.
pub record ThreadData : Type 0 where
  pub instcount : ℕ
  pub inst_mem_access : ℕ
  pub critical_sections : ℕ

-- The global variables. `active_threads` is an INT16, as its bit pattern.
pub record Tool : Type 0 where
  pub active_threads : ℕ
  pub start_profile : Bool
  pub total_threads : ℕ
  pub recording : ℕ → Bool  -- `record`
  pub counters : ℕ → ThreadData  -- `data`
  pub call_site : List ℕ
  pub mem_access_map : MemMap

-- `main`, up to the registration of the callbacks.
abbrev pub start : (total_threads : ℕ) → (call_site : List ℕ) → Tool
start total_threads call_site = record {
  active_threads = 1;
  start_profile = false;
  total_threads = total_threads;
  recording = λ _. false;
  counters = λ _. record { instcount = 0; inst_mem_access = 0; critical_sections = 0 };
  call_site = call_site;
  mem_access_map = [];
}

abbrev pub u16 : ℕ → ℕ
u16 n = n % 65536

-- `active_threads > 1`, of the signed number.
abbrev pub many : ℕ → Bool
many active_threads = ltb 1 active_threads && ltb active_threads 32768

-- `ThreadBegin`. The result is `none` where ASSERTX stops the tool.
unfoldable pub thread_begin : (thread_id : ℕ) → Tool → Option Tool
thread_begin thread_id t =
    let n = u16 (t.active_threads + 1) in
    if ltb thread_id t.total_threads
    then some (record t { active_threads = n; start_profile = t.start_profile || many n })
    else none

-- `ThreadEnd`
unfoldable pub thread_end : Tool → Tool
thread_end t = record t { active_threads = u16 (t.active_threads + 65535) }

abbrev pub is_site : ℕ → List ℕ → Bool
is_site ret_address [] = false
is_site ret_address (s ∷ sites) = (s == ret_address) || is_site ret_address sites

abbrev pub enter_section : ThreadData → ThreadData
enter_section d = record d { critical_sections = inc32 d.critical_sections }

-- `ProcessLock`
unfoldable pub process_lock : (ret_address thread_id : ℕ) → Tool → Tool
process_lock ret_address thread_id t =
    if t.start_profile && is_site ret_address t.call_site
    then record t {
      counters = update t.counters thread_id (enter_section (t.counters thread_id));
      recording = update t.recording thread_id true;
    }
    else t

-- `ProcessUnlock`
unfoldable pub process_unlock : (thread_id : ℕ) → Tool → Tool
process_unlock thread_id t =
    if t.start_profile then record t { recording = update t.recording thread_id false } else t

-- The arguments that an instruction is instrumented with, an absent operand as address 0.
pub record Operands : Type 0 where
  pub is_mem_access : Bool
  pub is_stack_access : Bool
  pub waddr : ℕ
  pub raddr : ℕ
  pub raddr2 : ℕ

-- `if (_raddr & !shared_data)`: the bitwise operator leaves the last bit of the address.
abbrev pub read_tested : (raddr : ℕ) (shared_data : Bool) → Bool
read_tested raddr shared_data = if shared_data then false else raddr % 2 == 1

-- The three accesses of one instruction.
unfoldable pub write_access : (total_threads thread_id : ℕ) → Operands → MemMap → MemMap × Bool
unfolding do_mem_access
write_access total_threads thread_id o m =
    if o.waddr == 0 then (m, false) else do_mem_access total_threads o.waddr thread_id m

unfoldable pub read_access : (total_threads thread_id raddr : ℕ) → MemMap × Bool → MemMap × Bool
unfolding do_mem_access
read_access total_threads thread_id raddr (m, shared_data) =
    if read_tested raddr shared_data
    then do_mem_access total_threads raddr thread_id m
    else (m, shared_data)

unfoldable pub memory_accesses : (total_threads thread_id : ℕ) → Operands → MemMap → MemMap
unfolding write_access read_access
memory_accesses total_threads thread_id o m =
    (read_access total_threads thread_id o.raddr2
      (read_access total_threads thread_id o.raddr (write_access total_threads thread_id o m))).0

abbrev pub count_inst : ThreadData → ThreadData
count_inst d = record d { instcount = inc32 d.instcount }

abbrev pub count_access : ThreadData → ThreadData
count_access d = record d { inst_mem_access = inc32 d.inst_mem_access }

abbrev pub has_operand : Operands → Bool
has_operand o = not (o.waddr == 0) || (not (o.raddr == 0) || not (o.raddr2 == 0))

-- `ProcessInst`; the result is `none` where an assertion fails.
unfoldable pub process_inst : (thread_id : ℕ) → Operands → Tool → Option Tool
unfolding memory_accesses
process_inst thread_id o t =
    let counted = count_inst (t.counters thread_id) in
    let touched = memory_accesses t.total_threads thread_id o t.mem_access_map in
    if not (ltb thread_id t.total_threads)
    then none
    else if not (t.recording thread_id)
    then some t
    else if not (o.is_mem_access && not o.is_stack_access)
    then some (record t { counters = update t.counters thread_id counted })
    else if not (has_operand o)
    then none
    else some (record t {
      counters = update t.counters thread_id (count_access counted);
      mem_access_map = touched;
    })

-- One callback.
pub data Event : Type 0 where
  begins : (thread_id : ℕ) → Event
  ends : (thread_id : ℕ) → Event
  locks : (ret_address thread_id : ℕ) → Event
  unlocks : (thread_id : ℕ) → Event
  executes : (thread_id : ℕ) → Operands → Event

unfoldable pub handle : Event → Tool → Option Tool
unfolding thread_begin thread_end process_lock process_unlock process_inst
handle (begins i) t = thread_begin i t
handle (ends i) t = some (thread_end t)
handle (locks r i) t = some (process_lock r i t)
handle (unlocks i) t = some (process_unlock i t)
handle (executes i o) t = process_inst i o t

abbrev pub and_then : Option Tool → (Tool → Option Tool) → Option Tool
and_then none f = none
and_then (some t) f = f t

-- A run of the program under the tool, one callback after the other.
unfoldable pub run : List Event → Tool → Option Tool
unfolding handle
run [] t = some t
run (e ∷ es) t = and_then (handle e t) (run es)
