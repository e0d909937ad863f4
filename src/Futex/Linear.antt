-- ===== src/Futex/Linear.antt =====
-- The low-level lock against an abstract lock, which has an owner or none (source/lowlevellock.h,
-- source/lowlevellock.S).
use sync_perf.Base.{
  ℕ, ◌<◌, ◌≡◌, refl, sym, ap, ◌∙◌, arith, Option, none, some, List, [], ◌∷◌, ◌==◌, if◌then◌else◌,
  update, total, weight-le-total,
}
use sync_perf.Futex.Protocol.{
  Pc, idle, swapping, owner, Move, lock, cond_lock, lock_fails, trylock_fails, wait_first,
  swap_first, sleep, wait_fails, interrupted, swap_takes, swap_waits, unlock, unlock_slow, clear,
  System, act, wake, wake_none, Reach, start, later, holds,
}
use sync_perf.Futex.Invariant.{Inv, Reach-Inv}

pub data Event : Type 0 where
  acquire release : (thread : ℕ) → Event

-- The abstract lock: only a free lock is taken, and only its owner gives it back.
abbrev pub perform : Event → Option ℕ → Option (Option ℕ)
perform (acquire i) none = some (some i)
perform (acquire i) (some j) = none
perform (release i) none = none
perform (release i) (some j) = if i == j then some none else none

abbrev perform_after : Event → Option (Option ℕ) → Option (Option ℕ)
perform_after e none = none
perform_after e (some a) = perform e a

-- Events in reverse order, from a free lock; the result `none` says that one was not allowed.
unfoldable pub replay : List Event → Option (Option ℕ)
replay [] = some none
replay (e ∷ es) = perform_after e (replay es)

-- The access by which a lock call succeeds, and the one that stores 0.
abbrev pub add_event : {w w' : ℕ} {p p' : Pc} → ℕ → Move w p w' p' → List Event → List Event
add_event i (lock g) es = acquire i ∷ es
add_event i (cond_lock g) es = acquire i ∷ es
add_event i (swap_takes g) es = acquire i ∷ es
add_event i (unlock g) es = release i ∷ es
add_event i clear es = release i ∷ es
add_event i (lock_fails g) es = es
add_event i (trylock_fails g) es = es
add_event i (wait_first g) es = es
add_event i (swap_first g) es = es
add_event i (sleep g) es = es
add_event i (wait_fails g) es = es
add_event i interrupted es = es
add_event i (swap_waits g) es = es
add_event i (unlock_slow g) es = es

unfoldable pub history : {n : ℕ} {s : System} → Reach n s → List Event
history start = []
history (later before (act i lt mv)) = add_event i mv (history before)
history (later before (wake i j lti ltj ei ej)) = history before
history (later before (wake_none i lt e quiet)) = history before

abbrev pub owns : Option ℕ → ℕ → ℕ
owns none j = 0
owns (some i) j = if i == j then 1 else 0

abbrev pub Below : ℕ → Option ℕ → Type 0
Below n none = Unit
Below n (some i) = i < n

-- The abstract owner is the thread that holds the lock.
pub record Represents (n : ℕ) (pc : ℕ → Pc) (a : Option ℕ) : Type 0 where
  pub below : Below n a
  pub same : (j : ℕ) → j < n → holds (pc j) ≡ owns a j

quiet-Represents :
    (n i : ℕ) (pc : ℕ → Pc) (p : Pc) (a : Option ℕ)
    → Represents n pc a
    → holds p ≡ holds (pc i)
    → Represents n (update pc i p) a
quiet-Represents n i pc p a r e = record {
  below = r.below;
  same = λ j lt. ground (arith, r.same j lt);
}

takes-Represents :
    (n i : ℕ) (pc : ℕ → Pc) (p : Pc) (a : Option ℕ)
    → i < n
    → Represents n pc a
    → total holds n pc ≡ 0
    → holds p ≡ 1
    → (perform (acquire i) a ≡ some (some i)) × Represents n (update pc i p) (some i)
takes-Represents n i pc p none lt r free e =
    (refl, record { below = lt; same = λ j ltj. ground (arith, r.same j ltj) })
takes-Represents n i pc p (some k) lt r free e =
    absurd (ground (arith, r.same k r.below, weight-le-total holds n pc k r.below))

gives-Represents :
    (n i : ℕ) (pc : ℕ → Pc) (p : Pc) (a : Option ℕ)
    → i < n
    → Represents n pc a
    → holds (pc i) ≡ 1
    → holds p ≡ 0
    → (perform (release i) a ≡ some none) × Represents n (update pc i p) none
gives-Represents n i pc p none lt r held e = absurd (ground (arith, r.same i lt))
gives-Represents n i pc p (some k) lt r held e =
    let same : k ≡ i = ground (arith, r.same i lt) in
    (ground arith, record { below = tt; same = λ j ltj. ground (arith, r.same j ltj) })

-- The events are allowed, and lead to the owner.
abbrev pub Follows : (n : ℕ) → List Event → (ℕ → Pc) → Type 0
Follows n es pc = (a : Option ℕ) × (replay es ≡ some a) × Represents n pc a

quiet-Follows :
    (n i : ℕ) (es : List Event) (pc : ℕ → Pc) (p : Pc)
    → Follows n es pc
    → holds p ≡ holds (pc i)
    → Follows n es (update pc i p)
quiet-Follows n i es pc p (a, e, r) same = (a, e, quiet-Represents n i pc p a r same)

takes-Follows :
    (n i : ℕ) (es : List Event) (w : ℕ) (pc : ℕ → Pc) (p : Pc)
    → i < n
    → Inv n w pc
    → w ≡ 0
    → holds p ≡ 1
    → Follows n es pc
    → Follows n (acquire i ∷ es) (update pc i p)
unfolding replay
takes-Follows n i es w pc p lt inv zero_word held (a, e, r) =
    let (allowed, r') = takes-Represents n i pc p a lt r (omega (arith, inv.held)) held in
    (some i, ap (perform_after (acquire i)) e ∙ allowed, r')

gives-Follows :
    (n i : ℕ) (es : List Event) (pc : ℕ → Pc) (p : Pc)
    → i < n
    → holds (pc i) ≡ 1
    → holds p ≡ 0
    → Follows n es pc
    → Follows n (release i ∷ es) (update pc i p)
unfolding replay
gives-Follows n i es pc p lt held free (a, e, r) =
    let (allowed, r') = gives-Represents n i pc p a lt r held free in
    (none, ap (perform_after (release i)) e ∙ allowed, r')

Move-Follows :
    (n i : ℕ) (es : List Event) (pc : ℕ → Pc) {w w' : ℕ} {p p' : Pc} (mv : Move w p w' p')
    → p ≡ pc i
    → i < n
    → Inv n w pc
    → Follows n es pc
    → Follows n (add_event i mv es) (update pc i p')
Move-Follows n i es pc (lock g) e lt inv f = takes-Follows n i es _ pc owner lt inv g refl f
Move-Follows n i es pc (cond_lock g) e lt inv f = takes-Follows n i es _ pc owner lt inv g refl f
Move-Follows n i es pc (swap_takes g) e lt inv f = takes-Follows n i es _ pc owner lt inv g refl f
Move-Follows n i es pc (unlock g) e lt inv f =
    gives-Follows n i es pc _ lt (ap holds (sym e)) refl f
Move-Follows n i es pc clear e lt inv f = gives-Follows n i es pc _ lt (ap holds (sym e)) refl f
Move-Follows n i es pc (lock_fails g) e lt inv f = quiet-Follows n i es pc _ f (ap holds e)
Move-Follows n i es pc (trylock_fails g) e lt inv f = quiet-Follows n i es pc _ f (ap holds e)
Move-Follows n i es pc (wait_first g) e lt inv f = quiet-Follows n i es pc _ f (ap holds e)
Move-Follows n i es pc (swap_first g) e lt inv f = quiet-Follows n i es pc _ f (ap holds e)
Move-Follows n i es pc (sleep g) e lt inv f = quiet-Follows n i es pc _ f (ap holds e)
Move-Follows n i es pc (wait_fails g) e lt inv f = quiet-Follows n i es pc _ f (ap holds e)
Move-Follows n i es pc interrupted e lt inv f = quiet-Follows n i es pc _ f (ap holds e)
Move-Follows n i es pc (swap_waits g) e lt inv f = quiet-Follows n i es pc _ f (ap holds e)
Move-Follows n i es pc (unlock_slow g) e lt inv f = quiet-Follows n i es pc _ f (ap holds e)

-- Any number of threads that lock, try and unlock one word, with any interleaving of their
-- accesses, behave as an abstract lock: the successful locks and the unlocks, in the order of the
-- accesses by which they take effect, are a sequence that a lock with one owner allows, so each
-- lock comes while there is no owner and each unlock comes from the owner; and the abstract owner
-- at the end is the thread that holds the word.
pub history-Follows : {n : ℕ} {s : System} (r : Reach n s) → Follows n (history r) s.pc
unfolding history replay
history-Follows start = (none, refl, record { below = tt; same = λ j lt. refl })
history-Follows {n} (later {s} before (act i lt mv)) =
    Move-Follows n i (history before) s.pc mv refl lt (Reach-Inv before) (history-Follows before)
history-Follows {n} (later {s} before (wake i j lti ltj ei ej)) =
    quiet-Follows n j (history before) (update s.pc i idle) swapping
      (quiet-Follows n i (history before) s.pc idle (history-Follows before) (ground arith))
      (ground arith)
history-Follows {n} (later {s} before (wake_none i lt e quiet)) =
    quiet-Follows n i (history before) s.pc idle (history-Follows before) (ground arith)
