-- ===== src/Mutex/Restore.antt =====
-- A ceiling that a thread takes and gives back (source/tpp.c).
use sync_perf.Base.{
  ℕ, ◌+◌, ◌-◌, ◌<◌, ◌≤◌, ◌≡◌, ◌≢◌, ◌⊎◌, refl, sym, ap, ◌∙◌, fun_ext, arith, true, inl, inr, Option,
  none, some,
}
use native.Mathlib.Decide.{dec_lt}
use sync_perf.Mutex.Kinds.{eagain}
use sync_perf.Mutex.State.{Tpp, Self, Kernel, done}
use sync_perf.Mutex.Priority.{in_range, own_tpp, change_priority, change_with, raise}
use sync_perf.Mutex.Ceilings.Highest.{IsHighest, Holds}
use sync_perf.Mutex.Ceilings.{Exchanges, change_priority-Keeps}

not_higher :
    (lowest : ℕ) (t t' : Tpp)
    → IsHighest lowest t
    → IsHighest lowest t'
    → ((i : ℕ) → t'.priomap i ≡ t.priomap i)
    → t'.priomax ≤ t.priomax
not_higher lowest t t' h h' same = elim (dec_lt t.priomax t'.priomax) [
  | yes higher ↦
      let i = t'.priomax - lowest in
      absurd (h'.held (omega (arith, h.bound)) (same i ∙ h.none_above i (omega (arith, h.bound))))
  | no not_above ↦ omega arith
]

-- The counts determine the maximum.
same_counts :
    (lowest : ℕ) (t t' : Tpp)
    → IsHighest lowest t
    → IsHighest lowest t'
    → ((i : ℕ) → t'.priomap i ≡ t.priomap i)
    → t' ≡ t
same_counts lowest t t' h h' same =
    let top : t'.priomax ≡ t.priomax =
      omega (
        arith,
        not_higher lowest t t' h h' same,
        not_higher lowest t' t h' h (λ i. sym (same i)),
      ) in
    λ i. record { priomax = top i; priomap = fun_ext same i }

change_returns :
    (k : Kernel) (previous new : Option ℕ) (t : Tpp) (s : Self)
    → own_tpp k s ≡ some t
    → in_range k new ≡ true
    → in_range k previous ≡ true
    → change_priority k previous new s ≡ done (change_with k previous new t s)
unfolding change_priority
change_returns k previous new t s own hn hp = rw (own, change_priority, hn, hp) refl

own_tpp-some : (k : Kernel) (s : Self) (t : Tpp) → s.tpp ≡ some t → own_tpp k s ≡ some t
own_tpp-some k s t e = rw e refl

raise-none :
    (k : Kernel) (p : ℕ) (t : Tpp)
    → t.priomap (p - k.priority_min) + 1 < 4294967296
    → raise k.priority_min (some p) t ≢ none
raise-none k p t room e = ground arith

-- The first change is not refused, the second cannot be.
taken :
    (k : Kernel) (p : ℕ) (t t₁ : Tpp) (code : ℕ)
    → t.priomap (p - k.priority_min) + 1 < 4294967296
    → ((code ≡ eagain) × (raise k.priority_min (some p) t ≡ none) × (t₁ ≡ t))
      ⊎ Exchanges k.priority_min none (some p) t t₁
    → Exchanges k.priority_min none (some p) t t₁
taken k p t t₁ code room (inl (_, refused, _)) = absurd (raise-none k p t room refused)
taken k p t t₁ code room (inr x) = x

given_back :
    (lowest p : ℕ) (t₁ t₂ : Tpp) (code : ℕ)
    → ((code ≡ eagain) × (raise lowest none t₁ ≡ none) × (t₂ ≡ t₁))
      ⊎ Exchanges lowest (some p) none t₁ t₂
    → Exchanges lowest (some p) none t₁ t₂
given_back lowest p t₁ t₂ code (inl (_, refused, _)) = cc
given_back lowest p t₁ t₂ code (inr x) = x

in_range-some :
    (k : Kernel) (p : ℕ) → k.priority_min ≤ p → p ≤ k.priority_max → in_range k (some p) ≡ true
in_range-some k p low high = ground arith

-- The maximum is at least each ceiling that is held.
reaches :
    (lowest p : ℕ) (t : Tpp)
    → IsHighest lowest t
    → lowest ≤ p
    → 0 < t.priomap (p - lowest)
    → p ≤ t.priomax
reaches lowest p t h low held = elim (dec_lt t.priomax p) [
  | yes above ↦ absurd (omega (arith, h.none_above (p - lowest) (omega arith)))
  | no not_above ↦ omega arith
]

one_more :
    (lowest p : ℕ) (t t₁ : Tpp) → Exchanges lowest none (some p) t t₁ → 0 < t₁.priomap (p - lowest)
one_more lowest p t t₁ x = ground (arith, x (p - lowest))

-- The ceiling is taken.
takes :
    (k : Kernel) (p : ℕ) (t : Tpp) (s : Self)
    → own_tpp k s ≡ some t
    → IsHighest k.priority_min t
    → in_range k (some p) ≡ true
    → t.priomap (p - k.priority_min) + 1 < 4294967296
    → (r : ℕ × Self) × (t₁ : Tpp) × (change_priority k none (some p) s ≡ done r)
      × (r.1.tpp ≡ some t₁)
      × IsHighest k.priority_min t₁
      × Exchanges k.priority_min none (some p) t t₁
takes k p t s own h inside room =
    let r = change_with k none (some p) t s in
    let e = change_returns k none (some p) t s own inside refl in
    let (t₁, tpp₁, h₁, outcome) = change_priority-Keeps k none (some p) t s r own h tt e in
    (r, t₁, e, tpp₁, h₁, taken k p t t₁ r.0 room outcome)

-- It is given back.
gives :
    (k : Kernel) (p : ℕ) (t₁ : Tpp) (s : Self)
    → s.tpp ≡ some t₁
    → IsHighest k.priority_min t₁
    → in_range k (some p) ≡ true
    → Holds k.priority_min t₁ (some p)
    → (r : ℕ × Self) × (t₂ : Tpp) × (change_priority k (some p) none s ≡ done r)
      × (r.1.tpp ≡ some t₂)
      × IsHighest k.priority_min t₂
      × Exchanges k.priority_min (some p) none t₁ t₂
gives k p t₁ s tpp₁ h inside holds =
    let own = own_tpp-some k s t₁ tpp₁ in
    let r = change_with k (some p) none t₁ s in
    let e = change_returns k (some p) none t₁ s own refl inside in
    let (t₂, tpp₂, h₂, outcome) = change_priority-Keeps k (some p) none t₁ s r own h holds e in
    (r, t₂, e, tpp₂, h₂, given_back k.priority_min p t₁ t₂ r.0 outcome)

undone :
    (lowest p : ℕ) (t t₁ t₂ : Tpp)
    → IsHighest lowest t
    → IsHighest lowest t₂
    → Exchanges lowest none (some p) t t₁
    → Exchanges lowest (some p) none t₁ t₂
    → t₂ ≡ t
undone lowest p t t₁ t₂ h h₂ x x' = same_counts lowest t t₂ h h₂ (λ i. omega (arith, x i, x' i))

-- A thread whose recorded maximum is the highest of the ceilings that it holds takes a ceiling
-- within the kernel's range, as for the lock of a mutex, and gives it back, as for the unlock, where
-- the count of that ceiling is not exhausted. Both calls return; in between the thread holds this
-- ceiling once more, and its maximum is at least the ceiling; and at the end its ceilings and the
-- maximum are those of before, whatever the system says to the change of its priority.
pub change_priority_restores :
    (k : Kernel) (p : ℕ) (t : Tpp) (s : Self)
    → own_tpp k s ≡ some t
    → IsHighest k.priority_min t
    → k.priority_min ≤ p
    → p ≤ k.priority_max
    → t.priomap (p - k.priority_min) + 1 < 4294967296
    → (r : ℕ × Self) × (r' : ℕ × Self) × (t₁ : Tpp) × (change_priority k none (some p) s ≡ done r)
      × (change_priority k (some p) none r.1 ≡ done r')
      × (r.1.tpp ≡ some t₁)
      × Exchanges k.priority_min none (some p) t t₁
      × (p ≤ t₁.priomax)
      × (r'.1.tpp ≡ some t)
change_priority_restores k p t s own h low high room =
    let inside = in_range-some k p low high in
    let (r, t₁, e, tpp₁, h₁, x) = takes k p t s own h inside room in
    let one = one_more k.priority_min p t t₁ x in
    let (r', t₂, e', tpp₂, h₂, x') = gives k p t₁ r.1 tpp₁ h₁ inside (low, one) in
    (
      r,
      r',
      t₁,
      e,
      e',
      tpp₁,
      x,
      reaches k.priority_min p t₁ h₁ low one,
      tpp₂ ∙ ap some (undone k.priority_min p t t₁ t₂ h h₂ x x'),
    )
