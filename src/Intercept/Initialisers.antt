-- ===== src/Intercept/Initialisers.antt =====
-- A mutex that the program initialises statically (source/mutex_lock.c, mutex_manager.cpp).
use sync_perf.Base.{
  ℕ, ◌+◌, ◌<◌, ◌≡◌, ◌≢◌, ◌⊎◌, refl, none, some, [], ◌∷◌, arith, inl, inr, update, u64,
}
use sync_perf.Manager.Counters.{inc_access_count}
use sync_perf.Manager.Entries.{as_int}
use sync_perf.Manager.Contexts.{Context}
use sync_perf.Mutex.State.{Kernel, Call, done, blocked, zeroed}
use sync_perf.Mutex.LowLevel.{normal}
use sync_perf.Mutex.Lock.{mutex_lock}
use sync_perf.Mutex.Pairing.{IsFree, acquired, lock-eq-trylock}
use sync_perf.Intercept.World.{
  World, Caller, find_entry, note_access, prologue, call_on, write_back, pthread_mutex_lock,
}

-- The new entry of the first call on a mutex, linked to it.
abbrev pub linked_world : ℕ → World → World
linked_world a w =
    let i = as_int w.pool.cur in
    record w {
      users = update w.users a (record (w.users a) { pointer = some i });
      entries = update w.entries i (record (w.entries i) { contexts = []; entry_index = i });
      pool = record (w.pool) { cur = u64 (w.pool.cur + 1) };
      total_locks = w.total_locks + 1;
    }

abbrev pub call_site : Caller → Context
call_site who = record { eip = who.return_address; esp_offset = who.esp_offset; stack = who.stack }

-- An entry of which this call site is the one that is known, after a call from there.
abbrev pub noted : Caller → ℕ → World → World
noted who i w = record w {
  entries = update w.entries i (record (w.entries i) { contexts = call_site who ∷ [] });
  counters = inc_access_count w.counters (w.entries i).entry_index who.index;
}

find_first :
    (a : ℕ) (w : World)
    → (w.users a).pointer ≡ none
    → as_int w.pool.cur < w.pool.total
    → find_entry a (record w { total_locks = w.total_locks + 1 })
      ≡ done (as_int w.pool.cur, linked_world a w)
unfolding find_entry
find_first a w unset room = ground arith

note_one :
    (who : Caller) (i : ℕ) (w : World)
    → who.esp_offset ≢ 0
    → ((w.entries i).contexts ≡ []) ⊎ ((w.entries i).contexts ≡ call_site who ∷ [])
    → note_access who i w ≡ done (noted who i w)
unfolding note_access
note_one who i w esp (inl empty) = ground arith
note_one who i w esp (inr one) = ground arith

prologue_of :
    (who : Caller) (a i : ℕ) (w w₁ : World)
    → who.esp_offset ≢ 0
    → find_entry a (record w { total_locks = w.total_locks + 1 }) ≡ done (i, w₁)
    → ((w₁.entries i).contexts ≡ []) ⊎ ((w₁.entries i).contexts ≡ call_site who ∷ [])
    → prologue who a w ≡ done (i, noted who i w₁)
unfolding prologue
prologue_of who a i w w₁ esp found known = rw (found, note_one who i w₁ esp known) refl

find_again :
    (a i : ℕ) (w : World)
    → (w.users a).pointer ≡ some i
    → find_entry a (record w { total_locks = w.total_locks + 1 })
      ≡ done (i, record w { total_locks = w.total_locks + 1 })
unfolding find_entry
find_again a i w linked = ground arith

-- A lock call, from its prologue on.
lock_of :
    (k : Kernel) (who : Caller) (a i : ℕ) (w w₁ : World) (c : Call)
    → prologue who a w ≡ done (i, w₁)
    → mutex_lock k normal (call_on who i w₁) ≡ done (0, c)
    → pthread_mutex_lock k who a w ≡ done (0, write_back who i c w₁)
unfolding pthread_mutex_lock
lock_of k who a i w w₁ c enters locks = rw (enters, locks) refl

blocked_of :
    (k : Kernel) (who : Caller) (a i : ℕ) (w w₁ : World)
    → prologue who a w ≡ done (i, w₁)
    → mutex_lock k normal (call_on who i w₁) ≡ blocked
    → pthread_mutex_lock k who a w ≡ blocked
unfolding pthread_mutex_lock
blocked_of k who a i w w₁ enters waits = rw (enters, waits) refl

relock_waits :
    (k : Kernel) (c : Call)
    → c.mutex.kind ≡ 0
    → c.mutex.lock ≡ 1
    → c.others ≡ []
    → mutex_lock k normal c ≡ blocked
unfolding mutex_lock
relock_waits k c kind held alone = ground arith

-- The kind of a static initialiser is lost: the first lock of a mutex that has no entry, whatever
-- kind the program gave it, returns 0, and a second lock by the same thread from the same call site
-- blocks for ever while no other thread acts, also where the kind is the recursive one. It holds
-- while the pool has an entry left, whose mutex is all zero, and for a thread with a positive
-- identifier and call sites below the top of the stack.
pub static_kind_lost :
    (k : Kernel) (who : Caller) (a : ℕ) (w : World)
    → (w.users a).pointer ≡ none
    → as_int w.pool.cur < w.pool.total
    → (w.entries (as_int w.pool.cur)).mutex ≡ zeroed
    → who.esp_offset ≢ 0
    → who.call.others ≡ []
    → 0 < who.call.self.tid
    → (w' : World) × (pthread_mutex_lock k who a w ≡ done (0, w'))
      × (pthread_mutex_lock k who a w' ≡ blocked)
static_kind_lost k who a w unset room clean esp alone pos =
    let i = as_int w.pool.cur in
    let w₁ = noted who i (linked_world a w) in
    let enters = prologue_of who a i w _ esp (find_first a w unset room) (inl (ground arith)) in
    let c = call_on who i w₁ in
    let free : IsFree c.mutex = record {
      is_plain = ground arith;
      unlocked = ground arith;
      unowned = ground arith;
      users = ground arith;
    } in
    let locks = (lock-eq-trylock k c free pos).0 in
    let w₂ = write_back who i (acquired c) w₁ in
    let again =
      prologue_of who a i w₂ _ esp (find_again a i w₂ (ground arith)) (inr (ground arith)) in
    let stays =
      relock_waits k (call_on who i (noted who i (record w₂ { total_locks = w₂.total_locks + 1 })))
        (ground arith) (ground arith) alone in
    (w₂, lock_of k who a i w w₁ _ enters locks, blocked_of k who a i w₂ _ again stays)
