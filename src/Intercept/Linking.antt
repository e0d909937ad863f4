-- ===== src/Intercept/Linking.antt =====
-- The pointers from the program's mutexes to their entries (source/mutex_manager.cpp), over the
-- intercepted calls.
use sync_perf.Base.{
  ℕ, ◌+◌, ◌<◌, ◌≤◌, ◌≡◌, ◌≢◌, ◌⊎◌, refl, sym, ap, ◌∙◌, Option, none, some, ◌==◌, if◌then◌else◌, u64,
  arith, inl, inr,
}
use mathlib.Core.Path.{subst}
use native.Mathlib.Decide.{ℕ_discrete}
use sync_perf.Manager.Counters.{max_sync_entries}
use sync_perf.Manager.Entries.{as_int}
use sync_perf.Mutex.State.{Call, Outcome, done, >>=-eq-done, done-injective}
use sync_perf.Intercept.World.{
  World, Caller, create_mutex, set_pointer, set_sync_entry, find_entry, note_access, write_back,
}

-- Each pointer leads to an entry that was handed out and knows its index, no two mutexes of the
-- program share an entry, each entry handed out knows its index, and the pool has not handed out
-- more than the tables hold.
pub record IsLinked (w : World) : Type 0 where
  pub handed_out :
      (a i : ℕ) → (w.users a).pointer ≡ some i → (i < w.pool.cur) × ((w.entries i).entry_index ≡ i)
  pub apart : (a b i : ℕ) → (w.users a).pointer ≡ some i → (w.users b).pointer ≡ some i → a ≡ b
  pub indexed : (j : ℕ) → j < w.pool.cur → (w.entries j).entry_index ≡ j
  pub room : w.pool.cur ≤ w.pool.total
  pub table : w.pool.total ≤ max_sync_entries

-- The pointers and the pool are the same, and so are the indices in the entries.
pub record KeepsLinks (w w' : World) : Type 0 where
  pub same_users : w'.users ≡ w.users
  pub same_pool : w'.pool ≡ w.pool
  pub same_indices : (i : ℕ) → (w'.entries i).entry_index ≡ (w.entries i).entry_index

pub KeepsLinks-IsLinked : (w w' : World) → KeepsLinks w w' → IsLinked w → IsLinked w'
KeepsLinks-IsLinked w w' k p =
    let back : (a i : ℕ) → (w'.users a).pointer ≡ some i → (w.users a).pointer ≡ some i =
      λ a i e. sym (ap (λ f. (f a).pointer) k.same_users) ∙ e in
    record {
      handed_out = λ a i e.
          let (below, index_eq) = p.handed_out a i (back a i e) in
          (rw k.same_pool below, k.same_indices i ∙ index_eq);
      apart = λ a b i e f. p.apart a b i (back a i e) (back b i f);
      indexed = λ j below. k.same_indices j ∙ p.indexed j (rw k.same_pool at below);
      room = rw k.same_pool p.room;
      table = rw k.same_pool p.table;
    }

-- A new entry, to which the mutex then points.
pub create_mutex_lem :
    (a i : ℕ) (w w' : World)
    → create_mutex w ≡ done (i, w')
    → (i ≡ as_int w.pool.cur)
      × (w'.pool.cur ≡ u64 (w.pool.cur + 1))
      × (w'.users ≡ w.users)
      × ((j : ℕ) → (w'.entries j).entry_index ≡ (if i == j then i else (w.entries j).entry_index))
unfolding create_mutex
create_mutex_lem a i w w' e = (ground arith, ground arith, ground arith, λ j. ground arith)

create_mutex-room :
    (i : ℕ) (w w' : World)
    → create_mutex w ≡ done (i, w')
    → (as_int w.pool.cur < w.pool.total) × (w'.pool.total ≡ w.pool.total)
unfolding create_mutex
create_mutex-room i w w' e = (ground arith, ground arith)

-- The counter of a pool as large as the tables is far from the end of an `int`.
small_pool :
    (i : ℕ) (w w' : World)
    → IsLinked w
    → i ≡ as_int w.pool.cur
    → w'.pool.cur ≡ u64 (w.pool.cur + 1)
    → as_int w.pool.cur < w.pool.total
    → (i ≡ w.pool.cur) × (w'.pool.cur ≡ w.pool.cur + 1) × (w.pool.cur < w.pool.total)
small_pool i w w' p index_eq counter left =
    let room = p.room in let table = p.table in (ground arith, ground arith, ground arith)

-- A pointer after one was set.
linked_case :
    (a i b j : ℕ) (w : World)
    → ((set_pointer a i w).users b).pointer ≡ some j
    → ((a ≡ b) × (i ≡ j)) ⊎ ((a ≢ b) × ((w.users b).pointer ≡ some j))
linked_case a i b j w e = elim (ℕ_discrete a b) [
  | yes same ↦ inl (same, ground arith)
  | no differ ↦ inr (differ, ground arith)
]

pub create-IsLinked :
    (a i : ℕ) (w w' : World)
    → IsLinked w
    → create_mutex w ≡ done (i, w')
    → IsLinked (set_pointer a i w')
create-IsLinked a i w w' p e =
    let (index_eq, counter, kept, indices) = create_mutex_lem a i w w' e in
    let (left, same_total) = create_mutex-room i w w' e in
    let (fresh, grown, room_left) = small_pool i w w' p index_eq counter left in
    let old : (b j : ℕ) → (w'.users b).pointer ≡ some j → (w.users b).pointer ≡ some j =
      λ b j f. sym (ap (λ u. (u b).pointer) kept) ∙ f in
    record {
      handed_out = λ b j f. elim (linked_case a i b j w' f) [
        | inl (_, same) ↦ ground (arith, indices j)
        | inr (_, before) ↦ ground (arith, indices j, p.handed_out b j (old b j before))
      ];
      apart = λ b c j f g. elim (linked_case a i b j w' f) [
        | inl (is_b, same) ↦ elim (linked_case a i c j w' g) [
          | inl (is_c, _) ↦ sym is_b ∙ is_c
          | inr (_, before) ↦ absurd (omega (arith, p.handed_out c j (old c j before), fresh, same))
        ]
        | inr (_, before) ↦ elim (linked_case a i c j w' g) [
          | inl (_, same) ↦ absurd (omega (arith, p.handed_out b j (old b j before), fresh, same))
          | inr (_, before') ↦ p.apart b c j (old b j before) (old c j before')
        ]
      ];
      indexed = λ j below. ground (arith, indices j, grown, fresh, p.indexed j);
      room = omega (arith, grown, room_left, same_total);
      table = omega (arith, same_total, p.table);
    }

option_cases : (o : Option ℕ) → (o ≡ none) ⊎ ((j : ℕ) × (o ≡ some j))
option_cases none = inl refl
option_cases (some j) = inr (j, refl)

unset-set_sync_entry :
    (a i : ℕ) (w : World) → (w.users a).pointer ≡ none → set_sync_entry a i w ≡ set_pointer a i w
unset-set_sync_entry a i w unset = ground arith

-- How an entry is found: the mutex has it already, or it is made.
abbrev pub Finds : (a i : ℕ) → World → World → Type 0
Finds a i w w' =
    (((w.users a).pointer ≡ some i) × (w ≡ w'))
    ⊎ (((w.users a).pointer ≡ none)
        × ((made : World) × (create_mutex w ≡ done (i, made)) × (set_pointer a i made ≡ w')))

made-Finds :
    (a i j : ℕ) (w made w' : World)
    → (w.users a).pointer ≡ none
    → create_mutex w ≡ done (j, made)
    → ◌≡◌ {A = Outcome (ℕ × World)} (done (j, set_sync_entry a j made)) (done (i, w'))
    → Finds a i w w'
made-Finds a i j w made w' unset got rest =
    let (_, _, kept, _) = create_mutex_lem a j w made got in
    let pair : ◌≡◌ {A = ℕ × World} (j, set_sync_entry a j made) (i, w') = done-injective rest in
    let still : (made.users a).pointer ≡ none = ap (λ u. (u a).pointer) kept ∙ unset in
    let index_eq : j ≡ i = ap (λ r. r.0) pair in
    let world_eq : set_pointer a j made ≡ w' =
      sym (unset-set_sync_entry a j made still) ∙ ap (λ r. r.1) pair in
    inr (
      unset,
      (
        made,
        got ∙ ap (λ n. done (n, made)) index_eq,
        ap (λ n. set_pointer a n made) (sym index_eq) ∙ world_eq,
      ),
    )

pub find_entry-Finds : (a i : ℕ) (w w' : World) → find_entry a w ≡ done (i, w') → Finds a i w w'
unfolding find_entry
find_entry-Finds a i w w' e = elim (option_cases (w.users a).pointer) [
  | inl unset ↦
      let ((j, made), got, rest) =
        >>=-eq-done (create_mutex w) (λ r. done (r.0, set_sync_entry a r.0 r.1))
          (rw (unset, find_entry) at e) in
      made-Finds a i j w made w' unset got rest
  | inr (j, linked) ↦
      let pair : ◌≡◌ {A = ℕ × World} (j, w) (i, w') =
        done-injective (rw (linked, find_entry) at e) in
      inl (linked ∙ ap (λ r. some r.0) pair, ap (λ r. r.1) pair)
]

pub find_entry-IsLinked :
    (a i : ℕ) (w w' : World)
    → IsLinked w
    → find_entry a w ≡ done (i, w')
    → IsLinked w' × ((w'.users a).pointer ≡ some i)
find_entry-IsLinked a i w w' p e = elim (find_entry-Finds a i w w' e) [
  | inl (linked, same) ↦ rw (← same) (p, linked)
  | inr (_, (made, got, same)) ↦ rw (← same) (create-IsLinked a i w made p got, ground arith)
]

pub note_access-KeepsLinks :
    (who : Caller) (i : ℕ) (w w' : World) → note_access who i w ≡ done w' → KeepsLinks w w'
unfolding note_access
note_access-KeepsLinks who i w w' e = record {
  same_users = ground arith;
  same_pool = ground arith;
  same_indices = λ j. ground arith;
}

pub write_back-KeepsLinks :
    (who : Caller) (i : ℕ) (c : Call) (w : World) → KeepsLinks w (write_back who i c w)
write_back-KeepsLinks who i c w = record {
  same_users = refl;
  same_pool = refl;
  same_indices = λ j. ground arith;
}

pub write_back-IsLinked :
    (who : Caller) (i : ℕ) (c : Call) (w : World) → IsLinked w → IsLinked (write_back who i c w)
write_back-IsLinked who i c w p = KeepsLinks-IsLinked w _ (write_back-KeepsLinks who i c w) p

-- The world in a pair that a call returns.
pub returned_world :
    (code code' : ℕ) (w w' : World)
    → ◌≡◌ {A = Outcome (ℕ × World)} (done (code, w)) (done (code', w'))
    → IsLinked w
    → IsLinked w'
returned_world code code' w w' e p =
    let pair : ◌≡◌ {A = ℕ × World} (code, w) (code', w') = done-injective e in
    subst (λ r. IsLinked r.1) pair p
