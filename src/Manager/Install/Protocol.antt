-- ===== src/Manager/Install/Protocol.antt =====
-- The start of `pthread_mutex_lock` and `pthread_mutex_trylock` (source/mutex_lock.c,
-- source/mutex_trylock.c) with `is_my_mutex`, `create_mutex`, `setSyncEntry` and `get_mutex`
-- (source/mutex_manager.cpp), by `n` threads on one mutex, a shared access at a time.
use sync_perf.Base.{ℕ, ◌+◌, ◌≤◌, ◌<◌, ◌≡◌, ◌≢◌, Option, none, some, update}

-- Where a thread stands, with the local variables that are live there. An entry is its index.
pub data Pc : Type 0 where
  checking : Pc  -- before `is_my_mutex`
  creating : Pc  -- before `get_next_index`
  created : (realvar : ℕ) → Pc  -- entry of `setSyncEntry`
  rechecking : (realvar : ℕ) (expected : Option ℕ) → Pc
  swapping : (realvar : ℕ) (expected : Option ℕ) → Pc
  fetching : Pc  -- before `get_mutex`
  working : (entry : ℕ) → Pc  -- after `get_mutex`
  aborted : Pc  -- a failed assertion, or an exhausted pool

-- The first word of the mutex that the program sees (`none` is NULL), and the pool's counter.
pub record Shared : Type 0 where
  pub word : Option ℕ
  pub cur : ℕ
  pub total : ℕ

pub data Move (m : Shared) : Pc → Shared → Pc → Type 0 where
  unset : m.word ≡ none → Move m checking m creating
  set : m.word ≢ none → Move m checking m fetching
  alloc : m.cur < m.total → Move m creating (record m { cur = m.cur + 1 }) (created m.cur)
  exhausted : m.total ≤ m.cur → Move m creating (record m { cur = m.cur + 1 }) aborted
  expect : {r : ℕ} → Move m (created r) m (rechecking r m.word)
  still_unset : {r : ℕ} {e : Option ℕ} → m.word ≡ none → Move m (rechecking r e) m (swapping r e)
  set_meanwhile : {r : ℕ} {e : Option ℕ} → m.word ≢ none → Move m (rechecking r e) m fetching
  swap_wins :
      {r : ℕ} {e : Option ℕ}
      → m.word ≡ e
      → Move m (swapping r e) (record m { word = some r }) fetching
  swap_loses : {r : ℕ} {e : Option ℕ} → m.word ≢ e → Move m (swapping r e) m fetching
  fetch : {k : ℕ} → m.word ≡ some k → Move m fetching m (working k)
  fetch_fails : m.word ≡ none → Move m fetching m aborted

pub record System : Type 0 where
  pub mem : Shared
  pub pc : ℕ → Pc

pub data Step (n : ℕ) (s : System) : System → Type 0 where
  act :
      (i : ℕ) {m : Shared} {next : Pc}
      → Move s.mem (s.pc i) m next
      → i < n
      → Step n s (record { mem = m; pc = update s.pc i next })

-- `cur` entries of the pool are in use, and the mutex is zero, as a static initialiser leaves it.
abbrev pub init : ℕ → ℕ → System
init cur total = record {
  mem = record { word = none; cur = cur; total = total };
  pc = λ _. checking;
}

pub data Reach (n cur total : ℕ) : System → Type 0 where
  start : Reach n cur total (init cur total)
  later : {s t : System} → Reach n cur total s → Step n s t → Reach n cur total t

-- A thread that may still call `get_next_index`.
abbrev pub may_draw : Pc → ℕ
may_draw checking = 1
may_draw creating = 1
may_draw _ = 0
