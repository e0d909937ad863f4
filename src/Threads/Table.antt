-- ===== src/Threads/Table.antt =====
-- source/xthread.h, with `thread_t` and the limits of source/xdefines.h. Times are cycles.
use sync_perf.Base.{
  ℕ, ◌+◌, ◌-◌, ◌≡◌, refl, Bool, true, false, ◌||◌, leb, ltb, ◌==◌, if◌then◌else◌, update, ap,
}
use sync_perf.Manager.Counters.{max_threads}
use sync_perf.Threads.Stack.{private_stack_top}
use sync_perf.Clock.{TimeInfo, get_tsc, get_elapsed_cycle}

abbrev pub max_alive_threads : ℕ
max_alive_threads = 128

abbrev pub max_thread_levels : ℕ
max_thread_levels = 256

-- `thread_t`, without the start routine and the buffer.
pub record ThreadInfo : Type 0 where
  pub ptid : ℕ
  pub index : ℕ
  pub level_index : ℕ
  pub start_time : TimeInfo
  pub actual_runtime : ℕ
  pub parent_runtime : ℕ
  pub pindex : ℕ
  pub child_begin : ℕ
  pub child_end : ℕ
  pub self : ℕ
  pub tid : ℕ
  pub stack_top : ℕ

-- `struct threadLevelInfo`
pub record LevelInfo : Type 0 where
  pub begin_index : ℕ
  pub end_index : ℕ
  pub start_time : TimeInfo
  pub elapse : ℕ

abbrev no_time : TimeInfo
no_time = record { low = 0; high = 0 }

abbrev no_thread : ThreadInfo
no_thread = record {
  ptid = 0;
  index = 0;
  level_index = 0;
  start_time = no_time;
  actual_runtime = 0;
  parent_runtime = 0;
  pindex = 0;
  child_begin = 0;
  child_end = 0;
  self = 0;
  tid = 0;
  stack_top = 0;
}

abbrev no_level : LevelInfo
no_level = record { begin_index = 0; end_index = 0; start_time = no_time; elapse = 0 }

pub record Threads : Type 0 where
  pub infos : ℕ → ThreadInfo
  pub levels : ℕ → LevelInfo
  pub thread_index : ℕ
  pub alive : ℕ
  pub level : ℕ
  pub multithreading : Bool

-- `overrun`: an access behind the end of `_threadLevelInfo`, which the code does not check.
pub data Result {ℓ} (A : Type ℓ) : Type ℓ where
  ok : A → Result A
  aborted overrun : Result A

infixl 5 ◌>>=◌
abbrev pub ◌>>=◌ {ℓ κ} : {S : Type ℓ} {T : Type κ} → Result S → (S → Result T) → Result T
aborted >>= next = aborted
overrun >>= next = overrun
ok s >>= next = next s

-- Inversion of a chain that returns.
pub >>=-eq-ok {ℓ κ} :
    {S : Type ℓ} {T : Type κ} {t : T} (first : Result S) (next : S → Result T)
    → (first >>= next) ≡ ok t
    → (s : S) × (first ≡ ok s) × (next s ≡ ok t)
>>=-eq-ok aborted next e = cc
>>=-eq-ok overrun next e = cc
>>=-eq-ok (ok s) next e = (s, refl, e)

pub ok-injective {ℓ} : {A : Type ℓ} {a b : A} → ok a ≡ ok b → a ≡ b
ok-injective {A} {a} {b} e = ap (value a) e
  where
    value : A → Result A → A
    value d (ok x) = x
    value d _ = d

-- `&_threadLevelInfo[_threadLevel]`, written by the given function.
abbrev at_level : (LevelInfo → LevelInfo) → Threads → Result Threads
at_level f s =
    if ltb s.level max_thread_levels
    then ok (record s { levels = update s.levels s.level (f (s.levels s.level)) })
    else overrun

abbrev pub update_level : ℕ → Threads → Result Threads
update_level index s =
    at_level (λ l. if ltb l.end_index index then record l { end_index = index } else l) s

abbrev pub start_level : ℕ → TimeInfo → Threads → Result Threads
start_level index now s =
    at_level (λ l. record l { start_time = now; begin_index = index; end_index = index }) s

abbrev pub stop_level : TimeInfo → Threads → Result Threads
stop_level now s = at_level (λ l. record l { elapse = get_elapsed_cycle l.start_time now }) s

abbrev set_info : ℕ → ThreadInfo → Threads → Threads
set_info i t s = record s { infos = update s.infos i t }

-- One allocation: the thread that calls, by its index and its kernel identifier, and the readings
-- of the time-stamp counter in turn.
pub record Request : Type 0 where
  pub current : ℕ
  pub tid : ℕ
  pub tsc : ℕ → ℕ

-- The new structure, before its parent is known.
abbrev pub fill_info : Request → ℕ → Threads → Threads
fill_info r index s =
    set_info index
      (record (s.infos index) {
        ptid = r.tid;
        index = index;
        level_index = s.level;
        start_time = get_tsc (r.tsc 0);
      })
      s

-- `alivethreads == 1`: the serial phase ends, and a parallel one begins.
abbrev pub fork_phase : Request → ℕ → Threads → Result Threads
fork_phase r index s =
    let parent = record (s.infos r.current) { child_begin = index; child_end = index } in
    stop_level (get_tsc (r.tsc 1)) (set_info r.current parent (record s { multithreading = true }))
    >>= λ s₁. start_level index (get_tsc (r.tsc 2)) (record s₁ { level = s₁.level + 1 })

-- `if (index > current->childEndIndex)`
abbrev pub more_children : Request → ℕ → Threads → Threads
more_children r index s =
    let parent = s.infos r.current in
    if ltb parent.child_end index
    then set_info r.current (record parent { child_end = index }) s
    else s

abbrev pub enter_phase : Request → (index alivethreads : ℕ) → Threads → Result Threads
enter_phase r index alivethreads s =
    if alivethreads == 0
    then start_level index (get_tsc (r.tsc 1)) s
    else if alivethreads == 1
    then fork_phase r index s
    else update_level index s >>= λ s₁. ok (more_children r index s₁)

-- The parent's runtime is read at the `pindex` from before the assignment below it.
abbrev pub set_parent : Request → (index alivethreads : ℕ) → Threads → Threads
set_parent r index alivethreads s =
    let t = s.infos index in
    if alivethreads == 0
    then set_info index (record t { pindex = 0; parent_runtime = 0 }) s
    else set_info index
        (record t { parent_runtime = (s.infos t.pindex).actual_runtime; pindex = r.current }) s

abbrev pub count_thread : Threads → Threads
count_thread s = record s { thread_index = s.thread_index + 1; alive = s.alive + 1 }

-- `allocThreadIndex`, which runs under the global lock. The new index is the old `thread_index`.
unfoldable pub alloc_thread_index : Request → Threads → Result Threads
unfolding get_tsc get_elapsed_cycle
alloc_thread_index r s =
    if leb max_threads s.thread_index || leb max_alive_threads s.alive then aborted else do
      let filled = fill_info r s.thread_index (count_thread s)
      entered ← enter_phase r s.thread_index s.alive filled
      ok (set_parent r s.thread_index s.alive entered)

-- A thread makes itself known, and where its stack ends.
abbrev pub start_info : (self tid : ℕ) → ThreadInfo → ThreadInfo
start_info self tid t = record t { self = self; tid = tid; stack_top = private_stack_top self }

-- `initialize` clears the tables and the counters, and allocates index 0; what the first
-- thread knows of itself follows.
unfoldable pub initialize : Request → (self : ℕ) → Result Threads
unfolding alloc_thread_index
initialize r self = do
  s ← alloc_thread_index r (record {
    infos = λ _. no_thread;
    levels = λ _. no_level;
    thread_index = 0;
    alive = 0;
    level = 0;
    multithreading = false;
  })
  ok (set_info 0 (start_info self r.tid (s.infos 0)) s)

-- The last child has gone: the parallel phase ends, and a serial one begins.
abbrev join_phase : (ℕ → ℕ) → Threads → Result Threads
join_phase tsc s = stop_level (get_tsc (tsc 0)) (record s { multithreading = false }) >>= λ s₁.
    start_level s₁.thread_index (get_tsc (tsc 1)) (record s₁ { level = s₁.level + 1 })

-- `markThreadExit`, under the global lock; the pointer that it is given is not used. `tsc` are the
-- readings of the counter.
unfoldable pub mark_thread_exit : (ℕ → ℕ) → Threads → Result Threads
unfolding get_tsc get_elapsed_cycle
mark_thread_exit tsc s =
    let s₁ = record s { alive = s.alive - 1 } in if s₁.alive == 1 then join_phase tsc s₁ else ok s₁

-- `startThread`, around the start routine: the thread makes itself known, and at the end its
-- runtime.
unfoldable pub thread_started : (index self tid : ℕ) → Threads → Threads
thread_started index self tid s = set_info index (start_info self tid (s.infos index)) s

unfoldable pub thread_returned : (index : ℕ) → (tsc : ℕ) → Threads → Threads
unfolding get_tsc get_elapsed_cycle
thread_returned index tsc s =
    let t = s.infos index in
    set_info index (record t { actual_runtime = get_elapsed_cycle t.start_time (get_tsc tsc) }) s
