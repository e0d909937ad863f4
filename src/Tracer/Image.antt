-- ===== src/Tracer/Image.antt =====
-- The choice of the instructions to instrument, and of their operands
-- (diagnosis_tool/src/sync_track.cpp, `Image`).
use sync_perf.Base.{
  ℕ, ◌<◌, ◌≡◌, ◌≢◌, arith, Bool, true, false, not, ◌&&◌, ◌||◌, Option, none, some, if◌then◌else◌,
}
use sync_perf.Tracer.Callbacks.{Operands, Tool, has_operand, process_inst}

-- What Pin says of an instruction.
pub record Ins : Type 0 where
  pub is_original : Bool
  pub has_fall_through : Bool
  pub is_memory_write : Bool
  pub is_memory_read : Bool
  pub has_memory_read2 : Bool
  pub is_stack_read : Bool
  pub is_stack_write : Bool

-- The effective addresses of one execution.
pub record Addresses : Type 0 where
  pub memory_write : ℕ
  pub memory_read : ℕ
  pub memory_read2 : ℕ

-- The arguments of the inserted call, by the chain of tests.
unfoldable pub operands : Ins → Addresses → Operands
operands i a =
    let w = i.is_memory_write in
    let r = i.is_memory_read in
    let r2 = i.has_memory_read2 in
    let some_access : Operands = record {
      is_mem_access = true;
      is_stack_access = i.is_stack_read || i.is_stack_write;
      waddr = 0;
      raddr = 0;
      raddr2 = 0;
    } in
    if w && (r && r2)
    then record some_access {
      waddr = a.memory_write;
      raddr = a.memory_read;
      raddr2 = a.memory_read2;
    }
    else if w && (r && not r2)
    then record some_access { waddr = a.memory_write; raddr = a.memory_read }
    else if w && not r
    then record some_access { waddr = a.memory_write }
    else if not w && (r && r2)
    then record some_access { raddr = a.memory_read; raddr2 = a.memory_read2 }
    else if not w && (r && not r2)
    then record some_access { raddr = a.memory_read }
    else record some_access { is_mem_access = false; is_stack_access = false }

-- The call that is inserted before an instruction, if any.
unfoldable pub instrument : Ins → Addresses → Option Operands
unfolding operands
instrument i a =
    if not i.is_original
    then none
    else if (i.is_memory_write || i.is_memory_read) && i.has_fall_through
    then some (operands i a)
    else none

-- The execution of an instruction under the tool.
unfoldable pub execute : (thread_id : ℕ) → Ins → Addresses → Tool → Option Tool
unfolding instrument process_inst
execute thread_id i a t = elim (instrument i a) [
  | none ↦ some t
  | some o ↦ process_inst thread_id o t
]

-- The address of each operand that an instruction has is not 0.
pub record HasAddresses (i : Ins) (a : Addresses) : Type 0 where
  pub write : i.is_memory_write ≡ true → a.memory_write ≢ 0
  pub read : i.is_memory_read ≡ true → a.memory_read ≢ 0

-- Exactly the original memory instructions that fall through are instrumented. Each inserted call
-- says that it is a memory access, so the case for other instructions is never taken; it says
-- whether the stack is meant; and it passes the operands that the instruction has, and 0 for the
-- others.
pub instrument_exact :
    (i : Ins) (a : Addresses)
    → instrument i a ≡ (
        if i.is_original && ((i.is_memory_write || i.is_memory_read) && i.has_fall_through)
        then some (record {
          is_mem_access = true;
          is_stack_access = i.is_stack_read || i.is_stack_write;
          waddr = if i.is_memory_write then a.memory_write else 0;
          raddr = if i.is_memory_read then a.memory_read else 0;
          raddr2 = if i.is_memory_read && i.has_memory_read2 then a.memory_read2 else 0;
        })
        else none)
unfolding instrument
instrument_exact i a = ground arith

process_inst-ne-none :
    (thread_id : ℕ) (o : Operands) (t : Tool)
    → thread_id < t.total_threads
    → has_operand o ≡ true
    → process_inst thread_id o t ≢ none
unfolding process_inst
process_inst-ne-none thread_id o t known some_operand = ground arith

operands-has_operand :
    (i : Ins) (a : Addresses)
    → HasAddresses i a
    → (i.is_memory_write || i.is_memory_read) ≡ true
    → has_operand (operands i a) ≡ true
unfolding operands
operands-has_operand i a here memory = ground arith

-- No assertion of the tool fails on an instruction of the program, if its thread is one of the
-- tool's threads and no operand that it has is at address 0.
pub execute_never_fails :
    (thread_id : ℕ) (i : Ins) (a : Addresses) (t : Tool)
    → thread_id < t.total_threads
    → HasAddresses i a
    → execute thread_id i a t ≢ none
unfolding execute
execute_never_fails thread_id i a t known here =
    ground
      (arith, process_inst-ne-none thread_id (operands i a) t known, operands-has_operand i a here)
