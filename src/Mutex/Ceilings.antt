-- ===== src/Mutex/Ceilings.antt =====
-- The ceilings that a thread holds, over a change of them (source/tpp.c).
pub mod Highest
use sync_perf.Base.{
  ℕ, zero, suc, ◌+◌, ◌-◌, ◌<◌, ◌≤◌, ◌≡◌, ◌≢◌, ◌⊎◌, refl, ap, ◌∙◌, arith, true, false, ◌&&◌,
  Bool-cases, inl, inr, Option, none, some, ◌==◌, if◌then◌else◌, dec32, update,
}
use sync_perf.Mutex.Kinds.{eagain}
use mathlib.Core.Path.{subst}
use native.Mathlib.Decide.{ℕ_discrete}
use sync_perf.Mutex.State.{Tpp, Self, Kernel, done, aborted, done-injective}
use sync_perf.Mutex.Priority.{
  in_range, own_tpp, change_priority, highest_below, raise, above, lower, change_with,
  apply_priority, load_schedule,
}
use sync_perf.Mutex.Ceilings.Highest.{
  IsHighest, Holds, AtLeast, Raised, raise-cases, raise-IsHighest, raise-Raised, lower-IsHighest,
}

load_schedule-tpp : (k : Kernel) (s : Self) → (load_schedule k s).1.tpp ≡ s.tpp
unfolding load_schedule
load_schedule-tpp k s = ground arith

apply_priority-tpp :
    (k : Kernel) (priomax newpriomax : ℕ) (s : Self)
    → (apply_priority k priomax newpriomax s).1.tpp ≡ s.tpp
unfolding apply_priority
apply_priority-tpp k priomax newpriomax s = ground (arith, load_schedule-tpp k s)

-- One, at the ceiling in question.
abbrev pub one_at : (lowest : ℕ) → Option ℕ → ℕ → ℕ
one_at lowest none i = 0
one_at lowest (some p) i = if i == p - lowest then 1 else 0

-- The ceilings held after a change: those before, with the new and without the previous one.
abbrev pub Exchanges : (lowest : ℕ) → (previous new : Option ℕ) → Tpp → Tpp → Type 0
Exchanges lowest previous new t t' =
    (i : ℕ) → t'.priomap i + one_at lowest previous i ≡ t.priomap i + one_at lowest new i

raise-one_at :
    (lowest : ℕ) (new : Option ℕ) (t t₁ : Tpp)
    → IsHighest lowest t
    → raise lowest new t ≡ some t₁
    → (i : ℕ) → t₁.priomap i ≡ t.priomap i + one_at lowest new i
raise-one_at lowest none t t₁ h e i = ground arith
raise-one_at lowest (some q) t t₁ h e i = ground (arith, h.fits i)

lower-one_at :
    (lowest priomax : ℕ) (previous new : Option ℕ) (t : Tpp)
    → IsHighest lowest t
    → Holds lowest t previous
    → (i : ℕ)
    → (lower lowest priomax previous new t).priomap i + one_at lowest previous i ≡ t.priomap i
lower-one_at lowest priomax none new t h holds i = omega arith
lower-one_at lowest priomax (some p) new t h (low, held) i = ground (arith, h.fits i)

raise-Holds :
    (lowest : ℕ) (previous : Option ℕ) (t t₁ : Tpp)
    → ((i : ℕ) → t.priomap i ≤ t₁.priomap i)
    → Holds lowest t previous
    → Holds lowest t₁ previous
raise-Holds lowest none t t₁ more holds = tt
raise-Holds lowest (some p) t t₁ more (low, held) = (low, omega (arith, more (p - lowest)))

-- What a change leaves of the thread's ceilings.
abbrev pub Keeps : (lowest : ℕ) → (previous new : Option ℕ) → Tpp → ℕ × Self → Type 0
Keeps lowest previous new t r =
    (t' : Tpp) × (r.1.tpp ≡ some t')
    × IsHighest lowest t'
    × (((r.0 ≡ eagain) × (raise lowest new t ≡ none) × (t' ≡ t))
        ⊎ Exchanges lowest previous new t t')

change_with-Keeps :
    (k : Kernel) (previous new : Option ℕ) (t : Tpp) (s : Self)
    → IsHighest k.priority_min t
    → Holds k.priority_min t previous
    → AtLeast k.priority_min new
    → Keeps k.priority_min previous new t (change_with k previous new t s)
unfolding change_with
change_with-Keeps k previous new t s h holds low = elim (raise-cases k.priority_min new t) [
  | inl refused ↦ rw (refused, change_with) (t, refl, h, inl (refl, refl, refl))
  | inr (t₁, e) ↦
      let r = raise-Raised k.priority_min new t t₁ h low e in
      let t₂ = lower k.priority_min t.priomax previous new t₁ in
      let h₁ = raise-IsHighest k.priority_min new t t₁ h low e in
      let h₂ =
        lower-IsHighest k.priority_min previous new t t₁ (omega (arith, k.min_pos)) h h₁ r holds in
      let held₁ = raise-Holds k.priority_min previous t t₁ r.more holds in
      let x : Exchanges k.priority_min previous new t t₂ = λ i.
        lower-one_at k.priority_min t.priomax previous new t₁ h₁ held₁ i
        ∙ raise-one_at k.priority_min new t t₁ h e i in
      rw (e, change_with)
        (elim (Bool-cases (t.priomax == t₂.priomax)) [
          | inl same ↦ rw same (t₂, refl, h₂, inr x)
          | inr other ↦ rw other (
            t₂,
            apply_priority-tpp k t.priomax t₂.priomax (record s { tpp = some t₂ }),
            h₂,
            inr x,
          )
        ])
]

in_range-AtLeast :
    (k : Kernel) (new : Option ℕ) → in_range k new ≡ true → AtLeast k.priority_min new
in_range-AtLeast k none e = tt
in_range-AtLeast k (some p) e = ground arith

pub fresh-IsHighest :
    (k : Kernel)
    → IsHighest k.priority_min (record { priomax = k.priority_min - 1; priomap = λ _. 0 })
fresh-IsHighest k = record {
  bound = omega arith;
  none_above = λ i h. refl;
  held = λ h. absurd (omega (arith, k.min_pos));
  fits = λ i. omega arith;
}

-- A call of `__pthread_tpp_change_priority` by a thread whose recorded maximum is the highest of
-- the ceilings that it holds, with a ceiling to give up that it holds, keeps the maximum right
-- whenever it returns, also where the system refuses the new priority. Either the count of the new
-- ceiling is exhausted, the result is EAGAIN and nothing has changed; or the thread holds the
-- ceilings of before, with the new one added and the previous one taken off.
pub change_priority-Keeps :
    (k : Kernel) (previous new : Option ℕ) (t : Tpp) (s : Self) (r : ℕ × Self)
    → own_tpp k s ≡ some t
    → IsHighest k.priority_min t
    → Holds k.priority_min t previous
    → change_priority k previous new s ≡ done r
    → Keeps k.priority_min previous new t r
unfolding change_priority
change_priority-Keeps k previous new t s r own h holds e =
    let inside = in_range k new && in_range k previous in
    let opened : (if inside then done (change_with k previous new t s) else aborted) ≡ done r =
      rw (own, change_priority) at e in
    elim (Bool-cases inside) [
      | inl yes_inside ↦
          let same : change_with k previous new t s ≡ r =
            done-injective (rw yes_inside at opened) in
          subst (λ x. Keeps k.priority_min previous new t x) same
            (change_with-Keeps k previous new t s h holds (in_range-AtLeast k new (ground arith)))
      | inr no_inside ↦ absurd (ground arith)
    ]
