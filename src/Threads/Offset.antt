-- ===== src/Threads/Offset.antt =====
-- How far a call is below the top of its stack: source/xdefines.h, `getThreadStackTop`, and the
-- first lines of source/mutex_lock.c and source/mutex_trylock.c.
use sync_perf.Base.{ℕ, ◌+◌, ◌-◌, ◌%◌, ◌^◌, ◌<◌, ◌≤◌, ◌≡◌, arith, u32, update}
use sync_perf.Threads.Stack.{private_stack_top}
use sync_perf.Manager.Entries.{page_size}
use sync_perf.Threads.Table.{ThreadInfo, Threads, start_info, thread_started}

-- The address, cut to 32 bits.
abbrev pub get_thread_stack_top : (current : ThreadInfo) → ℕ
get_thread_stack_top current = u32 current.stack_top

-- `esp` is the lower half of the stack pointer.
abbrev pub esp_offset : (current : ThreadInfo) (stack_pointer : ℕ) → ℕ
esp_offset current stack_pointer = u32 (get_thread_stack_top current + 2 ^ 32 - u32 stack_pointer)

private_stack_top_lem :
    (thread : ℕ)
    → thread + page_size < 2 ^ 64
    → (thread < private_stack_top thread)
      × (private_stack_top thread ≤ thread + page_size)
      × (private_stack_top thread % page_size ≡ 0)
unfolding private_stack_top
private_stack_top_lem thread h = omega arith

-- Once a thread has started, whose descriptor `self` lies on top of its stack, the top that the
-- code computes is the end of the page of the descriptor; and for a stack pointer below the
-- descriptor, by less than 2 ^ 32 - 4096 bytes, the offset that a lock computes from the lower
-- halves of the two addresses is the true distance to that top, so that the assertion that it is
-- positive holds.
pub esp_offset_exact :
    (index self tid stack_pointer : ℕ) (s : Threads)
    → self + page_size < 2 ^ 64
    → stack_pointer < self
    → self < stack_pointer + (2 ^ 32 - page_size)
    → let current = (thread_started index self tid s).infos index in
      (self < current.stack_top)
      × (current.stack_top ≤ self + page_size)
      × (current.stack_top % page_size ≡ 0)
      × (esp_offset current stack_pointer + stack_pointer ≡ current.stack_top)
      × (0 < esp_offset current stack_pointer)
unfolding thread_started
esp_offset_exact index self tid stack_pointer s high below near =
    let (above, close, aligned) = private_stack_top_lem self high in
    let top : (update s.infos index (start_info self tid (s.infos index)) index).stack_top
        ≡ private_stack_top self =
      ground arith in
    rw top (above, close, aligned, omega arith, omega arith)
