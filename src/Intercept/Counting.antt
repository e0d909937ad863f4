-- ===== src/Intercept/Counting.antt =====
-- What the prologue of a lock call counts (source/mutex_lock.c, mutex_trylock.c,
-- mutex_manager.cpp).
use sync_perf.Base.{
  ℕ, ◌+◌, ◌<◌, ◌≡◌, refl, sym, ap, ◌∙◌, ◌&&◌, ◌==◌, if◌then◌else◌, arith, inl, inr,
}
use sync_perf.Manager.Counters.{
  max_sync_entries, max_threads, get_thread_mutex_data, modify_data, count_access, inc_access_count,
  get-modify_data,
}
use sync_perf.Mutex.State.{done}
use sync_perf.Intercept.World.{World, Caller, create_mutex, find_entry, note_access, prologue}
use sync_perf.Intercept.Linking.{
  IsLinked, KeepsLinks, KeepsLinks-IsLinked, find_entry-Finds, find_entry-IsLinked,
}
use sync_perf.Intercept.Steps.{prologue_parts}

pub create_keeps_counters :
    (i : ℕ) (w w' : World)
    → create_mutex w ≡ done (i, w')
    → (w'.counters ≡ w.counters) × (w'.total_locks ≡ w.total_locks)
unfolding create_mutex
create_keeps_counters i w w' e = (ground arith, ground arith)

find_keeps_counters :
    (a i : ℕ) (w w' : World)
    → find_entry a w ≡ done (i, w')
    → (w'.counters ≡ w.counters) × (w'.total_locks ≡ w.total_locks)
find_keeps_counters a i w w' e = elim (find_entry-Finds a i w w' e) [
  | inl (_, same) ↦ (ap (λ u. u.counters) (sym same), ap (λ u. u.total_locks) (sym same))
  | inr (_, (made, got, same)) ↦
      let (c, t) = create_keeps_counters i w made got in
      (ap (λ u. u.counters) (sym same) ∙ c, ap (λ u. u.total_locks) (sym same) ∙ t)
]

note_counters :
    (who : Caller) (i : ℕ) (w w' : World)
    → note_access who i w ≡ done w'
    → (w'.counters ≡ modify_data count_access w.counters (w.entries i).entry_index who.index)
      × (w'.total_locks ≡ w.total_locks)
unfolding note_access inc_access_count
note_counters who i w w' e = (ground arith, ground arith)

-- Where the entries are linked, the prologue of a lock or trylock call that goes through adds one to
-- the access count of the calling thread for the mutex's entry, changes no other counter of any
-- thread or mutex within the limits, and adds one to the count of all locks.
pub prologue_counts :
    (who : Caller) (a i m t : ℕ) (w w' : World)
    → IsLinked w
    → prologue who a w ≡ done (i, w')
    → i < max_sync_entries
    → who.index < max_threads
    → m < max_sync_entries
    → t < max_threads
    → (get_thread_mutex_data w'.counters m t ≡ (
        if (i == m) && (who.index == t)
        then count_access (get_thread_mutex_data w.counters i who.index)
        else get_thread_mutex_data w.counters m t))
      × (w'.total_locks ≡ w.total_locks + 1)
prologue_counts who a i m t w w' p e small known hm ht =
    let (w₁, found, noted) = prologue_parts who a i w w' e in
    let counted : KeepsLinks w (record w { total_locks = w.total_locks + 1 }) = record {
      same_users = refl;
      same_pool = refl;
      same_indices = λ j. refl;
    } in
    let (linked, points) = find_entry-IsLinked a i _ w₁ (KeepsLinks-IsLinked w _ counted p) found in
    let (same_counters, same_total) = find_keeps_counters a i _ w₁ found in
    let (new_counters, total_kept) = note_counters who i w₁ w' noted in
    let index_eq = (linked.handed_out a i points).1 in
    let all : w'.counters ≡ modify_data count_access w.counters i who.index =
      new_counters
      ∙ ap (λ n. modify_data count_access w₁.counters n who.index) index_eq
      ∙ ap (λ d. modify_data count_access d i who.index) same_counters in
    (
      ap (λ d. get_thread_mutex_data d m t) all
          ∙ get-modify_data count_access w.counters i who.index m t small hm known ht,
      total_kept ∙ same_total,
    )
