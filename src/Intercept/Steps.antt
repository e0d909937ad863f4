-- ===== src/Intercept/Steps.antt =====
-- Runs of the intercepted calls (source/mutex_lock.c, mutex_trylock.c, mutex_unlock.c,
-- mutex_init.c, mutex_destroy.c).
use sync_perf.Base.{
  ◌<◌, ◌≤◌, ℕ, ◌+◌, ◌≡◌, refl, sym, ap, ◌∙◌, Bool, true, false, none, some, ◌==◌, if◌then◌else◌,
  update, arith,
}
use sync_perf.Manager.Counters.{SyncData, max_sync_entries, inc_trylock_fail_count}
use sync_perf.Mutex.Kinds.{ebusy}
use sync_perf.Mutex.State.{PMutex, Kernel, Call, Outcome, done, ◌>>=◌, >>=-eq-done, done-injective}
use sync_perf.Mutex.LowLevel.{normal}
use sync_perf.Mutex.Init.{mutex_init, mutex_destroy}
use sync_perf.Mutex.Lock.{mutex_lock}
use sync_perf.Mutex.Unlock.{mutex_unlock}
use sync_perf.Mutex.Trylock.{do_mutex_trylock}
use sync_perf.Intercept.World.{
  World, Caller, get_mutex, create_mutex, set_pointer, find_entry, note_access, prologue, call_on,
  write_back, pthread_mutex_lock, pthread_mutex_trylock, pthread_mutex_unlock, pthread_mutex_init,
  pthread_mutex_destroy,
}
use sync_perf.Intercept.Linking.{
  IsLinked, KeepsLinks, KeepsLinks-IsLinked, create-IsLinked, find_entry-IsLinked,
  note_access-KeepsLinks, write_back-IsLinked, returned_world,
}
use sync_perf.Intercept.Waiting.{begin_wait, end_wait, begin_wait-IsLinked, end_wait-IsLinked}

-- A call that returned; a wait on a condition variable is two steps.
pub data Step (k : Kernel) (w w' : World) : Type 0 where
  lock : (who : Caller) (a code : ℕ) → pthread_mutex_lock k who a w ≡ done (code, w') → Step k w w'
  trylock :
      (who : Caller) (a code : ℕ) → pthread_mutex_trylock k who a w ≡ done (code, w') → Step k w w'
  unlock :
      (who : Caller) (a code : ℕ) → pthread_mutex_unlock k who a w ≡ done (code, w') → Step k w w'
  init : (a kind code : ℕ) → pthread_mutex_init a kind w ≡ done (code, w') → Step k w w'
  destroy : (a code : ℕ) → pthread_mutex_destroy a w ≡ done (code, w') → Step k w w'
  sleep : (who : Caller) (a code : ℕ) → begin_wait k who a w ≡ done (code, w') → Step k w w'
  wake :
      (who : Caller) (waits a code : ℕ) → end_wait k who waits a w ≡ done (code, w') → Step k w w'

-- Before the first call.
pub record IsFresh (w : World) : Type 0 where
  pub unlinked : (a : ℕ) → (w.users a).pointer ≡ none
  pub unused : w.pool.cur ≡ 0
  pub table : w.pool.total ≤ max_sync_entries

pub data Reach (k : Kernel) (w : World) : World → Type 0 where
  start : Reach k w w
  next : {w₁ w₂ : World} → Reach k w w₁ → Step k w₁ w₂ → Reach k w w₂

-- The two parts of the prologue.
pub prologue_parts :
    (who : Caller) (a i : ℕ) (w w' : World)
    → prologue who a w ≡ done (i, w')
    → (w₁ : World) × (find_entry a (record w { total_locks = w.total_locks + 1 }) ≡ done (i, w₁))
      × (note_access who i w₁ ≡ done w')
unfolding prologue
prologue_parts who a i w w' e =
    let w₀ = record w { total_locks = w.total_locks + 1 } in
    let ((j, w₁), found, rest) =
      >>=-eq-done (find_entry a w₀) (λ f. note_access who f.0 f.1 >>= λ w₂. done (f.0, w₂)) e in
    let (w₂, noted, same) = >>=-eq-done (note_access who j w₁) (λ w₂. done (j, w₂)) rest in
    let pair : ◌≡◌ {A = ℕ × World} (j, w₂) (i, w') = done-injective same in
    let index_eq : j ≡ i = ap (λ r. r.0) pair in
    (
      w₁,
      found ∙ ap (λ n. done (n, w₁)) index_eq,
      ap (λ n. note_access who n w₁) (sym index_eq) ∙ noted ∙ ap (λ r. done r.1) pair,
    )

pub prologue-IsLinked :
    (who : Caller) (a i : ℕ) (w w' : World)
    → IsLinked w
    → prologue who a w ≡ done (i, w')
    → IsLinked w' × ((w'.users a).pointer ≡ some i)
prologue-IsLinked who a i w w' p e =
    let (w₁, found, noted) = prologue_parts who a i w w' e in
    let counted : KeepsLinks w (record w { total_locks = w.total_locks + 1 }) = record {
      same_users = refl;
      same_pool = refl;
      same_indices = λ j. refl;
    } in
    let (linked, points) = find_entry-IsLinked a i _ w₁ (KeepsLinks-IsLinked w _ counted p) found in
    let kept = note_access-KeepsLinks who i w₁ w' noted in
    (KeepsLinks-IsLinked w₁ w' kept linked, ap (λ u. (u a).pointer) kept.same_users ∙ points)

lock-IsLinked :
    (k : Kernel) (who : Caller) (a code : ℕ) (w w' : World)
    → IsLinked w
    → pthread_mutex_lock k who a w ≡ done (code, w')
    → IsLinked w'
unfolding pthread_mutex_lock
lock-IsLinked k who a code w w' p e =
    let ((i, w₁), entered, rest) =
      >>=-eq-done (prologue who a w)
        (λ f.
          mutex_lock k normal (call_on who f.0 f.1) >>= λ r. done (r.0, write_back who f.0 r.1 f.1))
        e in
    let ((code', c), locked, same) =
      >>=-eq-done (mutex_lock k normal (call_on who i w₁))
        (λ r. done (r.0, write_back who i r.1 w₁)) rest in
    let linked = (prologue-IsLinked who a i w w₁ p entered).0 in
    returned_world code' code _ w' same (write_back-IsLinked who i c w₁ linked)

unlock-IsLinked :
    (k : Kernel) (who : Caller) (a code : ℕ) (w w' : World)
    → IsLinked w
    → pthread_mutex_unlock k who a w ≡ done (code, w')
    → IsLinked w'
unfolding pthread_mutex_unlock
unlock-IsLinked k who a code w w' p e =
    let (i, got, rest) =
      >>=-eq-done (get_mutex a w)
        (λ i. mutex_unlock k (call_on who i w) >>= λ r. done (r.0, write_back who i r.1 w)) e in
    let ((code', c), unlocked, same) =
      >>=-eq-done (mutex_unlock k (call_on who i w)) (λ r. done (r.0, write_back who i r.1 w))
        rest in
    returned_world code' code _ w' same (write_back-IsLinked who i c w p)

-- A trylock that was busy is counted after the write.
counted-IsLinked :
    (b : Bool) (d : SyncData) (w : World)
    → IsLinked w
    → IsLinked (if b then record w { counters = d } else w)
counted-IsLinked true d w p =
    KeepsLinks-IsLinked w _
      (record { same_users = refl; same_pool = refl; same_indices = λ j. refl }) p
counted-IsLinked false d w p = p

abbrev pub finish_trylock : Caller → ℕ → World → ℕ × Call → Outcome (ℕ × World)
finish_trylock who i w r =
    let w' = write_back who i r.1 w in
    let counted = inc_trylock_fail_count w'.counters (w'.entries i).entry_index who.index in
    done (r.0, if r.0 == ebusy then record w' { counters = counted } else w')

trylock-IsLinked :
    (k : Kernel) (who : Caller) (a code : ℕ) (w w' : World)
    → IsLinked w
    → pthread_mutex_trylock k who a w ≡ done (code, w')
    → IsLinked w'
unfolding pthread_mutex_trylock
trylock-IsLinked k who a code w w' p e =
    let ((i, w₁), entered, rest) =
      >>=-eq-done (prologue who a w)
        (λ f. do_mutex_trylock k (call_on who f.0 f.1) >>= finish_trylock who f.0 f.1) e in
    let ((code', c), locked, same) =
      >>=-eq-done (do_mutex_trylock k (call_on who i w₁)) (finish_trylock who i w₁) rest in
    let linked = (prologue-IsLinked who a i w w₁ p entered).0 in
    returned_world code' code _ w' same
      (counted-IsLinked (code' == ebusy) _ _ (write_back-IsLinked who i c w₁ linked))

-- A change of the mutex in an entry.
abbrev pub put_mutex : ℕ → PMutex → World → World
put_mutex i m w = record w { entries = update w.entries i (record (w.entries i) { mutex = m }) }

put_mutex-IsLinked : (i : ℕ) (m : PMutex) (w : World) → IsLinked w → IsLinked (put_mutex i m w)
put_mutex-IsLinked i m w p =
    KeepsLinks-IsLinked w _
      (record { same_users = refl; same_pool = refl; same_indices = λ j. ground arith }) p

init-IsLinked :
    (a kind code : ℕ) (w w' : World)
    → IsLinked w
    → pthread_mutex_init a kind w ≡ done (code, w')
    → IsLinked w'
unfolding pthread_mutex_init
init-IsLinked a kind code w w' p e =
    let ((i, w₁), made, same) =
      >>=-eq-done (create_mutex w)
        (λ r.
          let w₂ = set_pointer a r.0 r.1 in
          let (c, m) = mutex_init (w₂.entries r.0).mutex kind in done (c, put_mutex r.0 m w₂))
        e in
    returned_world _ code _ w' same (put_mutex-IsLinked i _ _ (create-IsLinked a i w w₁ p made))

destroy-IsLinked :
    (a code : ℕ) (w w' : World)
    → IsLinked w
    → pthread_mutex_destroy a w ≡ done (code, w')
    → IsLinked w'
unfolding pthread_mutex_destroy
destroy-IsLinked a code w w' p e =
    let (i, got, same) =
      >>=-eq-done (get_mutex a w)
        (λ i. let (c, m) = mutex_destroy (w.entries i).mutex in done (c, put_mutex i m w)) e in
    returned_world _ code _ w' same (put_mutex-IsLinked i _ w p)

pub Step-IsLinked : (k : Kernel) (w w' : World) → Step k w w' → IsLinked w → IsLinked w'
Step-IsLinked k w w' (lock who a code e) p = lock-IsLinked k who a code w w' p e
Step-IsLinked k w w' (trylock who a code e) p = trylock-IsLinked k who a code w w' p e
Step-IsLinked k w w' (unlock who a code e) p = unlock-IsLinked k who a code w w' p e
Step-IsLinked k w w' (init a kind code e) p = init-IsLinked a kind code w w' p e
Step-IsLinked k w w' (destroy a code e) p = destroy-IsLinked a code w w' p e
Step-IsLinked k w w' (sleep who a code e) p = begin_wait-IsLinked k who a code w w' p e
Step-IsLinked k w w' (wake who waits a code e) p = end_wait-IsLinked k who waits a code w w' p e

pub fresh-IsLinked : (w : World) → IsFresh w → IsLinked w
fresh-IsLinked w f = record {
  handed_out = λ a i e. ground (arith, f.unlinked a);
  apart = λ a b i e g. ground (arith, f.unlinked a);
  indexed = λ j below. absurd (omega (arith, f.unused));
  room = omega (arith, f.unused);
  table = f.table;
}

pub Reach-IsLinked : (k : Kernel) (w w' : World) → IsFresh w → Reach k w w' → IsLinked w'
Reach-IsLinked k w _ f start = fresh-IsLinked w f
Reach-IsLinked k w w₂ f (next {w₁} before step) =
    Step-IsLinked k w₁ w₂ step (Reach-IsLinked k w w₁ f before)

-- After any sequence of the intercepted calls that return, from a state in which no mutex of the
-- program has an entry yet, the pool is unused, and it is no larger than the tables: two mutexes of the program that point to the same entry are the same
-- mutex, and the entry was handed out and knows its own index.
pub entry_unshared :
    (k : Kernel) (w w' : World) (a b i : ℕ)
    → IsFresh w
    → Reach k w w'
    → (w'.users a).pointer ≡ some i
    → (w'.users b).pointer ≡ some i
    → (a ≡ b) × (i < w'.pool.cur) × ((w'.entries i).entry_index ≡ i)
entry_unshared k w w' a b i f r ea eb =
    let p = Reach-IsLinked k w w' f r in
    let (below, knows_index) = p.handed_out a i ea in (p.apart a b i ea eb, below, knows_index)
