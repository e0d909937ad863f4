-- ===== src/Program/Start.antt =====
-- source/libdefault.cpp, `initializer`, with `initialize` of source/xrun.h.
use sync_perf.Base.{
  ℕ, ◌+◌, ◌*◌, ◌≡◌, ◌≤◌, refl, ap, ◌∙◌, arith, Bool, true, Option, none, some, if◌then◌else◌,
}
use sync_perf.Manager.Counters.{
  ThreadMutex, SyncData, max_sync_entries, max_threads, data_index, get_thread_mutex_data,
  data_index_bounds,
}
use sync_perf.Manager.Entries
use sync_perf.Intercept.World.{UserMutex, Entry, World}
use sync_perf.Intercept.Steps.{IsFresh}
use sync_perf.Intercept.Ledger.{Clear}
use sync_perf.Threads.Table.{
  Threads, Request, Result, ok, aborted, ◌>>=◌, >>=-eq-ok, ok-injective, initialize,
}
use sync_perf.Threads.Phases.{InPhase, initialize-InPhase}
use sync_perf.Program.Memory.{
  MapRequest, mmap_allocate_private, private_request, mmap_allocate_private-eq-ok,
}

-- The system: whether it installs a handler for SIGINT, what it maps for the entries and for the
-- counters, and the sizes of `mutex_t` and `thread_mutex_t`.
pub record Host : Type 0 where
  pub sigaction : Bool
  pub map_entries : MapRequest → Option (ℕ → Entry)
  pub map_counters : MapRequest → Option SyncData
  pub entry_size : ℕ
  pub data_size : ℕ

pub record Process : Type 0 where
  pub threads : Threads
  pub world : World
  pub initialized : Bool

-- A handler that cannot be installed ends the program.
abbrev pub install_signal_handler : Host → Result {0} Unit
install_signal_handler host = if host.sigaction then ok tt else aborted

-- `thread_sync_data`: the size of the array of counters.
abbrev pub sync_data_size : Host → ℕ
sync_data_size host = max_sync_entries * max_threads * host.data_size

unfoldable pub new_pool : Host → Entries.Entries
unfolding Entries.initialize
new_pool host = Entries.initialize host.entry_size max_sync_entries

abbrev pub assemble :
    (users : ℕ → UserMutex) → Entries.Entries → Threads → (ℕ → Entry) → SyncData → Process
assemble users pool threads entries counters = record {
  threads = threads;
  world = record {
    users = users;
    entries = entries;
    pool = pool;
    counters = counters;
    total_locks = 0;
    total_conflicts = 0;
  };
  initialized = true;
}

-- The memory for the entries, and then the memory for the counters.
unfoldable pub map_tables : Host → (users : ℕ → UserMutex) → Threads → Result Process
unfolding mmap_allocate_private
map_tables host users threads = do
  entries ← mmap_allocate_private host.map_entries (new_pool host).mapped
  counters ← mmap_allocate_private host.map_counters (sync_data_size host)
  ok (assemble users (new_pool host) threads entries counters)

-- `users` are the mutexes of the program as it is loaded.
unfoldable pub initializer : Host → Request → (self : ℕ) → (users : ℕ → UserMutex) → Result Process
unfolding initialize map_tables
initializer host r self users = do
  installed ← install_signal_handler host
  threads ← initialize r self
  map_tables host users threads

abbrev pub zero_data : ThreadMutex
zero_data = record {
  access_count = 0;
  fail_count = 0;
  cond_waits = 0;
  trylock_fail_count = 0;
  cond_futex_wait = 0;
  futex_wait = 0;
}

-- Anonymous memory reads as zeros, as far as it was asked for.
pub record MapsZeros (host : Host) : Type 0 where
  pub zeros :
      (r : MapRequest) (d : SyncData) (i : ℕ)
      → host.map_counters r ≡ some d
      → r.anonymous ≡ true
      → i * host.data_size + host.data_size ≤ r.sz
      → d i ≡ zero_data

-- What `initializer` puts together.
pub record IsAssembled (host : Host) (r : Request) (self : ℕ) (users : ℕ → UserMutex) (p : Process)
    : Type 0 where
  pub threads_eq : initialize r self ≡ ok p.threads
  pub users_eq : p.world.users ≡ users
  pub pool_eq : p.world.pool ≡ new_pool host
  pub mapped : host.map_counters (private_request (sync_data_size host)) ≡ some p.world.counters

initializer-IsAssembled :
    (host : Host) (r : Request) (self : ℕ) (users : ℕ → UserMutex) (p : Process)
    → initializer host r self users ≡ ok p
    → IsAssembled host r self users p
unfolding initializer map_tables
initializer-IsAssembled host r self users p e =
    let (_, _, e₁) =
      >>=-eq-ok (install_signal_handler host) (λ _. initialize r self >>= map_tables host users)
        e in
    let (threads, begun, e₂) = >>=-eq-ok (initialize r self) (map_tables host users) e₁ in
    let (entries, _, e₃) =
      >>=-eq-ok (mmap_allocate_private host.map_entries (new_pool host).mapped)
        (λ es. mmap_allocate_private host.map_counters (sync_data_size host) >>= λ cs.
          ok (assemble users (new_pool host) threads es cs))
        e₂ in
    let (counters, got, e₄) =
      >>=-eq-ok (mmap_allocate_private host.map_counters (sync_data_size host))
        (λ cs. ok (assemble users (new_pool host) threads entries cs)) e₃ in
    let same : assemble users (new_pool host) threads entries counters ≡ p = ok-injective e₄ in
    rw (← same) (record {
      threads_eq = begun;
      users_eq = refl;
      pool_eq = refl;
      mapped = mmap_allocate_private-eq-ok host.map_counters (sync_data_size host) counters got;
    })

initializer-Clear :
    (host : Host) (r : Request) (self : ℕ) (users : ℕ → UserMutex) (p : Process)
    → MapsZeros host
    → IsAssembled host r self users p
    → Clear p.world
unfolding get_thread_mutex_data
initializer-Clear host r self users p z a m t hm ht =
    let (_, below, _) = data_index_bounds m t hm ht in
    ap (λ d. d.access_count)
      (z.zeros (private_request (sync_data_size host)) p.world.counters (data_index m t) a.mapped
        refl (grind (arith, below)))

initializer-IsFresh :
    (host : Host) (r : Request) (self : ℕ) (users : ℕ → UserMutex) (p : Process)
    → ((a : ℕ) → (users a).pointer ≡ none)
    → IsAssembled host r self users p
    → IsFresh p.world
unfolding new_pool Entries.initialize
initializer-IsFresh host r self users p unlinked a = record {
  unlinked = λ b. ap (λ f. (f b).pointer) a.users_eq ∙ unlinked b;
  unused = ap (λ e. e.cur) a.pool_eq;
  table = rw a.pool_eq (omega arith);
}

initializer-total :
    (host : Host) (r : Request) (self : ℕ) (users : ℕ → UserMutex) (p : Process)
    → IsAssembled host r self users p
    → p.world.pool.total ≡ max_sync_entries
unfolding new_pool Entries.initialize
initializer-total host r self users p a = ap (λ e. e.total) a.pool_eq

-- `initializer`, when it returns, leaves no mutex of the program with an entry, a pool that has given
-- out no entry and hands out as many as the tables hold, a zero count for each mutex and thread, and one
-- thread, which runs in the first phase; if the first word of each mutex of the program is NULL, and
-- anonymous memory reads as zeros.
pub initializer-starts :
    (host : Host) (r : Request) (self : ℕ) (users : ℕ → UserMutex) (p : Process)
    → MapsZeros host
    → ((a : ℕ) → (users a).pointer ≡ none)
    → initializer host r self users ≡ ok p
    → IsFresh p.world
      × (p.world.pool.total ≡ max_sync_entries)
      × Clear p.world
      × InPhase p.threads
      × (p.threads.alive ≡ 1)
      × (p.threads.level ≡ 0)
initializer-starts host r self users p z unlinked e =
    let a = initializer-IsAssembled host r self users p e in
    let (phase, one, zero_level) = initialize-InPhase r self p.threads a.threads_eq in
    (
      initializer-IsFresh host r self users p unlinked a,
      initializer-total host r self users p a,
      initializer-Clear host r self users p z a,
      phase,
      one,
      zero_level,
    )
