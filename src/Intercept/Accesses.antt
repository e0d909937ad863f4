-- ===== src/Intercept/Accesses.antt =====
-- What a step of the intercepted calls does to the access counts (source/mutex_lock.c,
-- mutex_trylock.c, mutex_unlock.c, mutex_init.c, mutex_destroy.c).
use sync_perf.Base.{
  ℕ, ◌<◌, ◌≡◌, refl, sym, ap, ◌∙◌, arith, Bool, true, false, ◌&&◌, Option, none, some, ◌==◌,
  if◌then◌else◌, inc32,
}
use sync_perf.Manager.Counters.{
  ThreadMutex, max_sync_entries, max_threads, get_thread_mutex_data, modify_data, get-modify_data,
  inc_trylock_fail_count, count_trylock_fail,
}
use sync_perf.Mutex.State.{Call, Outcome, done}
use sync_perf.Mutex.Ensures.{Ensures, AtResult, ensures_result}
use sync_perf.Intercept.World.{UserMutex, World, Caller, get_mutex, prologue, call_on, write_back}
use sync_perf.Intercept.Linking.{IsLinked}
use sync_perf.Intercept.Counting.{prologue_counts}

-- The access count of a mutex and a thread.
abbrev pub accesses : World → (m t : ℕ) → ℕ
accesses w m t = (get_thread_mutex_data w.counters m t).access_count

-- Every access count within the limits is the same.
abbrev pub SameAccesses : World → World → Type 0
SameAccesses w w' =
    (m t : ℕ) → m < max_sync_entries → t < max_threads → accesses w' m t ≡ accesses w m t

pub write_back-SameAccesses :
    (who : Caller) (i : ℕ) (c : Call) (w : World)
    → i < max_sync_entries
    → who.index < max_threads
    → (w.entries i).entry_index ≡ i
    → c.stat.access_count ≡ accesses w i who.index
    → SameAccesses w (write_back who i c w)
write_back-SameAccesses who i c w hi hw e same m t hm ht =
    ap
      (λ j.
        (get_thread_mutex_data (modify_data (λ _. c.stat) w.counters j who.index) m t).access_count)
      e
    ∙ ground (arith, get-modify_data (λ _. c.stat) w.counters i who.index m t hi hm hw ht)

pub counted-SameAccesses :
    (b : Bool) (who : Caller) (i : ℕ) (w : World)
    → i < max_sync_entries
    → who.index < max_threads
    → (w.entries i).entry_index ≡ i
    → SameAccesses w (
        if b
        then record w {
          counters = inc_trylock_fail_count w.counters (w.entries i).entry_index who.index;
        }
        else w)
unfolding inc_trylock_fail_count
counted-SameAccesses false who i w hi hw e m t hm ht = refl
counted-SameAccesses true who i w hi hw e m t hm ht =
    ap
      (λ j.
        (get_thread_mutex_data (modify_data count_trylock_fail w.counters j who.index) m
          t).access_count)
      e
    ∙ ground (arith, get-modify_data count_trylock_fail w.counters i who.index m t hi hm hw ht)

-- A pointer leads to the entry `m`.
abbrev pub leads_to : ℕ → Option ℕ → Bool
leads_to m none = false
leads_to m (some i) = i == m

-- One more access of the thread for the entry that the mutex `a` points to, and no other.
abbrev pub OneMore : Caller → ℕ → World → World → Type 0
OneMore who a w w' =
    (m t : ℕ)
    → m < max_sync_entries
    → t < max_threads
    → accesses w' m t ≡ (
        if leads_to m (w'.users a).pointer && (who.index == t)
        then inc32 (accesses w m t)
        else accesses w m t)

pub prologue-OneMore :
    (who : Caller) (a i : ℕ) (w w₁ : World)
    → IsLinked w
    → prologue who a w ≡ done (i, w₁)
    → (w₁.users a).pointer ≡ some i
    → i < max_sync_entries
    → who.index < max_threads
    → OneMore who a w w₁
prologue-OneMore who a i w w₁ p e points hi hw m t hm ht =
    let counts = (prologue_counts who a i m t w w₁ p e hi hw hm ht).0 in
    ground (arith, ap (λ (s : ThreadMutex). s.access_count) counts, ap (leads_to m) points)

-- The accesses stay, and so do the pointers.
pub then_same :
    (who : Caller) (a : ℕ) (w w₁ w₂ : World)
    → OneMore who a w w₁
    → SameAccesses w₁ w₂
    → w₂.users ≡ w₁.users
    → OneMore who a w w₂
then_same who a w w₁ w₂ one same users m t hm ht =
    same m t hm ht
    ∙ one m t hm ht
    ∙ ap
        (λ (u : ℕ → UserMutex).
          if leads_to m (u a).pointer && (who.index == t)
          then inc32 (accesses w m t)
          else accesses w m t)
        (sym users)

-- What the mutex call of a step leaves in the counters.
pub kept_by :
    (who : Caller) (i : ℕ) (w : World) (m : Outcome (ℕ × Call)) (r : ℕ × Call)
    → (w.entries i).entry_index ≡ i
    → Ensures (AtResult (accesses w i who.index)) m
    → m ≡ done r
    → i < max_sync_entries
    → who.index < max_threads
    → SameAccesses w (write_back who i r.1 w)
kept_by who i w m r index_eq h e hi hw =
    write_back-SameAccesses who i r.1 w hi hw index_eq (ensures_result _ m r h e)

pub at_call :
    (who : Caller) (i : ℕ) (w : World)
    → (w.entries i).entry_index ≡ i
    → (call_on who i w).stat.access_count ≡ accesses w i who.index
at_call who i w e = ap (λ j. accesses w j who.index) e

pub get_mutex-pointer :
    (a i : ℕ) (w : World) → get_mutex a w ≡ done i → (w.users a).pointer ≡ some i
get_mutex-pointer a i w e = ground arith
