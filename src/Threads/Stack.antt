-- ===== src/Threads/Stack.antt =====
-- source/xthread.h, `setPrivateStackTop`: where the stack of a thread ends.
use sync_perf.Manager.Entries.{page_size}
use sync_perf.Base.{ℕ, ◌+◌, ◌*◌, ◌/◌, u64}

-- `(thread + PageSize) & ~PAGE_SIZE_MASK`, on a 64-bit address.
unfoldable pub private_stack_top : (thread : ℕ) → ℕ
private_stack_top thread = u64 (thread + page_size) / page_size * page_size
