-- ===== src/Intercept/World.antt =====
-- The state that the intercepted calls share, and the calls. A call runs as one step; the race of
-- several threads for the entry of a mutex is in Manager.Install.
use sync_perf.Base.{
  ℕ, ◌+◌, Bool, true, false, Option, none, some, List, [], ◌==◌, if◌then◌else◌, update,
}
use sync_perf.Manager.Counters.{
  SyncData, get_thread_mutex_data, modify_data, inc_access_count, inc_trylock_fail_count,
}
use sync_perf.Manager.Contexts.{Context, add_new_context}
use sync_perf.Manager.Entries.{Entries, get_next_index}
use sync_perf.Mutex.Kinds.{ebusy}
use sync_perf.Mutex.State.{PMutex, Kernel, Call, Outcome, done, aborted, ◌>>=◌}
use sync_perf.Mutex.LowLevel.{normal}
use sync_perf.Mutex.Init.{mutex_init, mutex_destroy}
use sync_perf.Mutex.Lock.{mutex_lock}
use sync_perf.Mutex.Unlock.{mutex_unlock}
use sync_perf.Mutex.Trylock.{do_mutex_trylock}

-- `mutex_t`
pub record Entry : Type 0 where
  pub mutex : PMutex
  pub contexts : List Context
  pub entry_index : ℕ

-- A mutex of the program: its first word, NULL or a pointer to an entry. The rest, such as the
-- kind of a static initialiser, is never read.
pub record UserMutex : Type 0 where
  pub pointer : Option ℕ
  pub kind : ℕ

pub record World : Type 0 where
  pub users : ℕ → UserMutex
  pub entries : ℕ → Entry
  pub pool : Entries
  pub counters : SyncData
  pub total_locks : ℕ
  pub total_conflicts : ℕ

-- The thread that calls: its index, its call site, and what one call works on, of which `mutex`,
-- `stat` and `conflicts` are taken from the world.
pub record Caller : Type 0 where
  pub index : ℕ
  pub return_address : ℕ
  pub esp_offset : ℕ
  pub stack : List ℕ
  pub call : Call

-- `*(void **) mutex == NULL` is `none`.
abbrev pub is_my_mutex : ℕ → World → Bool
is_my_mutex a w = elim (w.users a).pointer [ none ↦ false | some i ↦ true ]

abbrev pub get_mutex : ℕ → World → Outcome ℕ
get_mutex a w = elim (w.users a).pointer [ none ↦ aborted | some i ↦ done i ]

-- `create_mutex`: the next index; the counts of the entry are set, its mutex is left alone.
unfoldable pub create_mutex : World → Outcome (ℕ × World)
unfolding get_next_index
create_mutex w =
    let (got, pool') = get_next_index w.pool in
    elim got [
      | none ↦ aborted
      | some i ↦ done (
        i,
        record w {
          pool = pool';
          entries = update w.entries i (record (w.entries i) { contexts = []; entry_index = i });
        },
      )
    ]

abbrev pub set_pointer : ℕ → ℕ → World → World
set_pointer a i w = record w { users = update w.users a (record (w.users a) { pointer = some i }) }

-- `setSyncEntry`, whose compare-exchange succeeds here.
abbrev pub set_sync_entry : ℕ → ℕ → World → World
set_sync_entry a i w = if is_my_mutex a w then w else set_pointer a i w

-- The entry of the mutex, made at the first use.
unfoldable pub find_entry : ℕ → World → Outcome (ℕ × World)
unfolding create_mutex
find_entry a w = elim (w.users a).pointer [
  | some i ↦ done (i, w)
  | none ↦ create_mutex w >>= λ r. done (r.0, set_sync_entry a r.0 r.1)
]

abbrev set_contexts : ℕ → List Context → World → World
set_contexts i cs w = record w {
  entries = update w.entries i (record (w.entries i) { contexts = cs });
}

-- `assert (esp_offset > 0)` and `add_new_context`
abbrev pub note_context : Caller → ℕ → World → Outcome World
note_context who i w =
    if who.esp_offset == 0
    then aborted
    else elim (add_new_context (w.entries i).contexts who.return_address who.esp_offset who.stack) [
      | none ↦ aborted
      | some cs ↦ done (set_contexts i cs w)
    ]

-- `inc_access_count` comes first.
unfoldable pub note_access : Caller → ℕ → World → Outcome World
unfolding inc_access_count add_new_context
note_access who i w =
    note_context who i
      (record w { counters = inc_access_count w.counters (w.entries i).entry_index who.index })

-- The prologue that `pthread_mutex_lock` and `pthread_mutex_trylock` share, with the count of
-- GET_STATISTICS.
unfoldable pub prologue : Caller → ℕ → World → Outcome (ℕ × World)
unfolding find_entry note_access
prologue who a w = do
  found ← find_entry a (record w { total_locks = w.total_locks + 1 })
  w' ← note_access who found.0 found.1
  done (found.0, w')

-- The call works on the mutex of the entry and on the thread's counters for it.
abbrev pub call_on : Caller → ℕ → World → Call
call_on who i w = record (who.call) {
  mutex = (w.entries i).mutex;
  stat = get_thread_mutex_data w.counters (w.entries i).entry_index who.index;
  conflicts = w.total_conflicts;
}

abbrev pub write_back : Caller → ℕ → Call → World → World
write_back who i c w = record w {
  entries = update w.entries i (record (w.entries i) { mutex = c.mutex });
  counters = modify_data (λ _. c.stat) w.counters (w.entries i).entry_index who.index;
  total_conflicts = c.conflicts;
}

-- `pthread_mutex_lock`
unfoldable pub pthread_mutex_lock : Kernel → Caller → ℕ → World → Outcome (ℕ × World)
unfolding prologue mutex_lock
pthread_mutex_lock k who a w = do
  entered ← prologue who a w
  r ← mutex_lock k normal (call_on who entered.0 entered.1)
  done (r.0, write_back who entered.0 r.1 entered.1)

-- `pthread_mutex_trylock`, built with WITH_TRYLOCK: a busy mutex is counted.
unfoldable pub pthread_mutex_trylock : Kernel → Caller → ℕ → World → Outcome (ℕ × World)
unfolding prologue do_mutex_trylock inc_trylock_fail_count
pthread_mutex_trylock k who a w = do
  entered ← prologue who a w
  r ← do_mutex_trylock k (call_on who entered.0 entered.1)
  let w' = write_back who entered.0 r.1 entered.1
  let counted = inc_trylock_fail_count w'.counters (w'.entries entered.0).entry_index who.index
  done (r.0, if r.0 == ebusy then record w' { counters = counted } else w')

-- `pthread_mutex_unlock`: the mutex must have its entry.
unfoldable pub pthread_mutex_unlock : Kernel → Caller → ℕ → World → Outcome (ℕ × World)
unfolding mutex_unlock
pthread_mutex_unlock k who a w = do
  i ← get_mutex a w
  r ← mutex_unlock k (call_on who i w)
  done (r.0, write_back who i r.1 w)

-- `pthread_mutex_init`: always a new entry, also for a mutex that has one.
unfoldable pub pthread_mutex_init : ℕ → (mutexkind : ℕ) → World → Outcome (ℕ × World)
unfolding create_mutex mutex_init
pthread_mutex_init a mutexkind w = do
  made ← create_mutex w
  let w' = set_pointer a made.0 made.1
  let (code, m) = mutex_init (w'.entries made.0).mutex mutexkind
  let entry = record (w'.entries made.0) { mutex = m }
  done (code, record w' { entries = update w'.entries made.0 entry })

unfoldable pub pthread_mutex_destroy : ℕ → World → Outcome (ℕ × World)
unfolding mutex_destroy
pthread_mutex_destroy a w = do
  i ← get_mutex a w
  let (code, m) = mutex_destroy (w.entries i).mutex
  done (code, record w { entries = update w.entries i (record (w.entries i) { mutex = m }) })
