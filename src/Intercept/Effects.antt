-- ===== src/Intercept/Effects.antt =====
-- The access counts over each of the five calls (source/mutex_lock.c, mutex_trylock.c,
-- mutex_unlock.c, mutex_init.c, mutex_destroy.c).
use sync_perf.Base.{
  ℕ, ◌<◌, ◌≤◌, ◌≡◌, refl, sym, ap, ◌∙◌, arith, Bool, true, false, ◌==◌, if◌then◌else◌,
}
use mathlib.Core.Path.{subst}
use sync_perf.Manager.Counters.{
  SyncData, max_sync_entries, max_threads, get_thread_mutex_data, inc_trylock_fail_count,
}
use sync_perf.Mutex.Kinds.{ebusy}
use sync_perf.Mutex.State.{Kernel, done, ◌>>=◌, >>=-eq-done, done-injective}
use sync_perf.Mutex.LowLevel.{normal}
use sync_perf.Mutex.Lock.{mutex_lock}
use sync_perf.Mutex.Trylock.{do_mutex_trylock}
use sync_perf.Mutex.Unlock.{mutex_unlock}
use sync_perf.Mutex.Accesses.{mutex_lock-At}
use sync_perf.Mutex.Accesses.Trylock.{do_mutex_trylock-At}
use sync_perf.Mutex.Accesses.Unlock.{mutex_unlock-At}
use sync_perf.Mutex.Init.{mutex_init, mutex_destroy}
use sync_perf.Manager.Entries.{Entries}
use sync_perf.Intercept.World.{
  set_pointer, World, Caller, get_mutex, create_mutex, prologue, call_on, write_back,
  pthread_mutex_lock, pthread_mutex_trylock, pthread_mutex_unlock, pthread_mutex_init,
  pthread_mutex_destroy,
}
use sync_perf.Intercept.Linking.{IsLinked}
use sync_perf.Intercept.Steps.{finish_trylock, put_mutex, prologue-IsLinked}
use sync_perf.Intercept.Counting.{create_keeps_counters}
use sync_perf.Intercept.Accesses.{
  accesses, SameAccesses, OneMore, counted-SameAccesses, prologue-OneMore, then_same, kept_by,
  at_call, get_mutex-pointer,
}

pub lock-OneMore :
    (k : Kernel) (who : Caller) (a code : ℕ) (w w' : World)
    → IsLinked w
    → pthread_mutex_lock k who a w ≡ done (code, w')
    → w'.pool.cur ≤ max_sync_entries
    → who.index < max_threads
    → OneMore who a w w'
unfolding pthread_mutex_lock
lock-OneMore k who a code w w' p e room hw =
    let ((i, w₁), entered, rest) =
      >>=-eq-done (prologue who a w)
        (λ f.
          mutex_lock k normal (call_on who f.0 f.1) >>= λ r. done (r.0, write_back who f.0 r.1 f.1))
        e in
    let (r, locked, same) =
      >>=-eq-done (mutex_lock k normal (call_on who i w₁))
        (λ r. done (r.0, write_back who i r.1 w₁)) rest in
    let world : write_back who i r.1 w₁ ≡ w' = ap (λ (x : ℕ × World). x.1) (done-injective same) in
    let (linked, points) = prologue-IsLinked who a i w w₁ p entered in
    let (below, index_eq) = linked.handed_out a i points in
    let hi : i < max_sync_entries = omega (arith, ap (λ (x : World). x.pool.cur) world) in
    let kept =
      kept_by who i w₁ (mutex_lock k normal (call_on who i w₁)) r index_eq
        (mutex_lock-At (accesses w₁ i who.index) k normal (call_on who i w₁)
          (at_call who i w₁ index_eq))
        locked hi hw in
    subst (λ x. OneMore who a w x) world
      (then_same who a w w₁ (write_back who i r.1 w₁)
        (prologue-OneMore who a i w w₁ p entered points hi hw) kept refl)

-- A count behind the call leaves the rest of the world.
counted_rest :
    (b : Bool) (d : SyncData) (w : World)
    → ((if b then record w { counters = d } else w).users ≡ w.users)
      × ((if b then record w { counters = d } else w).pool ≡ w.pool)
counted_rest true d w = (refl, refl)
counted_rest false d w = (refl, refl)

pub trylock-OneMore :
    (k : Kernel) (who : Caller) (a code : ℕ) (w w' : World)
    → IsLinked w
    → pthread_mutex_trylock k who a w ≡ done (code, w')
    → w'.pool.cur ≤ max_sync_entries
    → who.index < max_threads
    → OneMore who a w w'
unfolding pthread_mutex_trylock
trylock-OneMore k who a code w w' p e room hw =
    let ((i, w₁), entered, rest) =
      >>=-eq-done (prologue who a w)
        (λ f. do_mutex_trylock k (call_on who f.0 f.1) >>= finish_trylock who f.0 f.1) e in
    let (r, locked, same) =
      >>=-eq-done (do_mutex_trylock k (call_on who i w₁)) (finish_trylock who i w₁) rest in
    let w₂ = write_back who i r.1 w₁ in
    let d = inc_trylock_fail_count w₂.counters (w₂.entries i).entry_index who.index in
    let w₃ = if r.0 == ebusy then record w₂ { counters = d } else w₂ in
    let (users, pool) = counted_rest (r.0 == ebusy) d w₂ in
    let world : w₃ ≡ w' = ap (λ (x : ℕ × World). x.1) (done-injective same) in
    let (linked, points) = prologue-IsLinked who a i w w₁ p entered in
    let (below, index_eq) = linked.handed_out a i points in
    let grown : w'.pool.cur ≡ w₁.pool.cur =
      ap (λ (x : World). x.pool.cur) (sym world) ∙ ap (λ (x : Entries). x.cur) pool in
    let hi : i < max_sync_entries = omega arith in
    let kept =
      kept_by who i w₁ (do_mutex_trylock k (call_on who i w₁)) r index_eq
        (do_mutex_trylock-At (accesses w₁ i who.index) k (call_on who i w₁)
          (at_call who i w₁ index_eq))
        locked hi hw in
    let index₂ : (w₂.entries i).entry_index ≡ i = ground arith in
    let counted = counted-SameAccesses (r.0 == ebusy) who i w₂ hi hw index₂ in
    subst (λ x. OneMore who a w x) world
      (then_same who a w w₂ w₃
        (then_same who a w w₁ w₂ (prologue-OneMore who a i w w₁ p entered points hi hw) kept refl)
        counted users)

pub unlock-SameAccesses :
    (k : Kernel) (who : Caller) (a code : ℕ) (w w' : World)
    → IsLinked w
    → pthread_mutex_unlock k who a w ≡ done (code, w')
    → w'.pool.cur ≤ max_sync_entries
    → who.index < max_threads
    → SameAccesses w w'
unfolding pthread_mutex_unlock
unlock-SameAccesses k who a code w w' p e room hw =
    let (i, got, rest) =
      >>=-eq-done (get_mutex a w)
        (λ i. mutex_unlock k (call_on who i w) >>= λ r. done (r.0, write_back who i r.1 w)) e in
    let (r, unlocked, same) =
      >>=-eq-done (mutex_unlock k (call_on who i w)) (λ r. done (r.0, write_back who i r.1 w))
        rest in
    let world : write_back who i r.1 w ≡ w' = ap (λ (x : ℕ × World). x.1) (done-injective same) in
    let (below, index_eq) = p.handed_out a i (get_mutex-pointer a i w got) in
    let hi : i < max_sync_entries = omega (arith, ap (λ (x : World). x.pool.cur) world) in
    subst (λ x. SameAccesses w x) world
      (kept_by who i w (mutex_unlock k (call_on who i w)) r index_eq
        (mutex_unlock-At (accesses w i who.index) k (call_on who i w) (at_call who i w index_eq))
        unlocked hi hw)

pub init-SameAccesses :
    (a kind code : ℕ) (w w' : World)
    → pthread_mutex_init a kind w ≡ done (code, w')
    → SameAccesses w w'
unfolding pthread_mutex_init
init-SameAccesses a kind code w w' e m t hm ht =
    let ((i, w₁), made, same) =
      >>=-eq-done (create_mutex w)
        (λ r.
          let w₂ = set_pointer a r.0 r.1 in
          let (c, m) = mutex_init (w₂.entries r.0).mutex kind in done (c, put_mutex r.0 m w₂))
        e in
    ap (λ (d : SyncData). (get_thread_mutex_data d m t).access_count)
      (ap (λ (x : ℕ × World). x.1.counters) (sym (done-injective same))
        ∙ (create_keeps_counters i w w₁ made).0)

pub destroy-SameAccesses :
    (a code : ℕ) (w w' : World) → pthread_mutex_destroy a w ≡ done (code, w') → SameAccesses w w'
unfolding pthread_mutex_destroy
destroy-SameAccesses a code w w' e m t hm ht =
    let (i, got, same) =
      >>=-eq-done (get_mutex a w)
        (λ i. let (c, m) = mutex_destroy (w.entries i).mutex in done (c, put_mutex i m w)) e in
    ap (λ (d : SyncData). (get_thread_mutex_data d m t).access_count)
      (ap (λ (x : ℕ × World). x.1.counters) (sym (done-injective same)))
