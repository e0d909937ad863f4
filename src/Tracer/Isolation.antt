-- ===== src/Tracer/Isolation.antt =====
-- What the counters of one thread depend on (diagnosis_tool/src/sync_track.cpp).
use sync_perf.Base.{
  ℕ, ◌≡◌, refl, sym, arith, Bool, true, false, Option, none, some, List, [], ◌∷◌, keep, ◌==◌,
  Bool-cases, inl, inr,
}
use sync_perf.Tracer.Callbacks.{
  Tool, Event, begins, ends, locks, unlocks, executes, handle, run, and_then,
}

-- The thread's own events, and the starts and ends of all threads.
abbrev pub concerns : ℕ → Event → Bool
concerns i (begins j) = true
concerns i (ends j) = true
concerns i (locks r j) = j == i
concerns i (unlocks j) = j == i
concerns i (executes j o) = j == i

-- Two tools agree in what the thread `i` shows.
record SameView (i : ℕ) (t u : Tool) : Type 0 where
  active : t.active_threads ≡ u.active_threads
  profile : t.start_profile ≡ u.start_profile
  total : t.total_threads ≡ u.total_threads
  sites : t.call_site ≡ u.call_site
  recording : t.recording i ≡ u.recording i
  counters : t.counters i ≡ u.counters i

SameOutcome : ℕ → Option Tool → Option Tool → Type 0
SameOutcome i none none = Unit {0}
SameOutcome i (some t) (some u) = SameView i t u
SameOutcome i none (some u) = Unit {0}
SameOutcome i (some t) none = ⊥

own-SameOutcome :
    (i : ℕ) (e : Event) (t u : Tool)
    → concerns i e ≡ true
    → SameView i t u
    → SameOutcome i (handle e t) (handle e u)
unfolding handle SameOutcome
own-SameOutcome i (begins j) t u c v = ground arith
own-SameOutcome i (ends j) t u c v = ground arith
own-SameOutcome i (locks r j) t u c v = ground arith
own-SameOutcome i (unlocks j) t u c v = ground arith
own-SameOutcome i (executes j o) t u c v = ground arith

other-SameView :
    (i : ℕ) (e : Event) (t t' u : Tool)
    → concerns i e ≡ false
    → handle e t ≡ some t'
    → SameView i t u
    → SameView i t' u
unfolding handle
other-SameView i (begins j) t t' u c h v = cc
other-SameView i (ends j) t t' u c h v = cc
other-SameView i (locks r j) t t' u c h v = ground arith
other-SameView i (unlocks j) t t' u c h v = ground arith
other-SameView i (executes j o) t t' u c h v = ground arith

pub and_then-eq-some :
    (o : Option Tool) (f : Tool → Option Tool) (t' : Tool)
    → and_then o f ≡ some t'
    → (t : Tool) × (o ≡ some t) × (f t ≡ some t')
and_then-eq-some none f t' h = cc
and_then-eq-some (some t) f t' h = (t, refl, h)

outcome :
    (i : ℕ) (t : Tool) (o : Option Tool)
    → SameOutcome i (some t) o
    → (u : Tool) × (o ≡ some u) × SameView i t u
unfolding SameOutcome
outcome i t none h = absurd h
outcome i t (some u) h = (u, refl, h)

view_alone :
    (i : ℕ) (es : List Event) (t t' u : Tool)
    → SameView i t u
    → run es t ≡ some t'
    → (u' : Tool) × (run (keep (concerns i) es) u ≡ some u') × SameView i t' u'
unfolding run
view_alone i [] t t' u v h = (u, refl, ground arith)
view_alone i (e ∷ es) t t' u v h =
    let (t₁, h₁, h₂) = and_then-eq-some (handle e t) (run es) t' h in
    elim (Bool-cases (concerns i e)) [
      | inl own ↦
          let same : SameOutcome i (some t₁) (handle e u) =
            rw (← h₁) (own-SameOutcome i e t u own v) in
          let (u₁, k, v₁) = outcome i t₁ (handle e u) same in
          let (u', r, v') = view_alone i es t₁ t' u₁ v₁ h₂ in (u', rw own (rw (k, and_then) r), v')
      | inr other ↦
          let (u', r, v') = view_alone i es t₁ t' u (other-SameView i e t t₁ u other h₁ v) h₂ in
          (u', rw other r, v')
    ]

-- The counters of a thread are those of a run with its own events alone, and the starts and ends of
-- all threads: what the other threads lock, unlock and execute leaves no trace in them.
pub counters_alone :
    (i : ℕ) (es : List Event) (t t' : Tool)
    → run es t ≡ some t'
    → (u : Tool) × (run (keep (concerns i) es) t ≡ some u) × (u.counters i ≡ t'.counters i)
counters_alone i es t t' h =
    let (u, r, v) =
      view_alone i es t t' t
        (record {
          active = refl;
          profile = refl;
          total = refl;
          sites = refl;
          recording = refl;
          counters = refl;
        })
        h in
    (u, r, sym v.counters)
