-- ===== src/Threads/Times.antt =====
-- The times of the levels against the time of the whole run (source/xthread.h).
mod Switches
pub mod Events
use sync_perf.Base.{
  ℕ, zero, suc, ◌+◌, ◌-◌, ◌<◌, ◌≤◌, ◌≡◌, ◌≢◌, refl, sym, ap, ◌∙◌, arith, Bool, true, false, List,
  [], ◌∷◌, Bool-cases, inl, inr, ltb, ◌==◌, if◌then◌else◌, total,
}
use mathlib.Core.Path.{subst}
use native.Mathlib.Decide.{ℕ_discrete}
use sync_perf.Clock.{get_tsc, get_elapsed_cycle, elapsed_exact}
use sync_perf.Threads.Table.{
  Threads, LevelInfo, Request, ok, >>=-eq-ok, ok-injective, alloc_thread_index, mark_thread_exit,
  initialize, thread_started, thread_returned,
}
use sync_perf.Threads.Phases.{
  Event, create, exit, started, returned, happen, run, is_switch, alive_after, InPhase,
  initialize-InPhase, event-Advances, exit_happens,
}
use sync_perf.Threads.Calls.{finalize}
use sync_perf.Threads.Times.Events.{
  time_of_levels, total_same, gap, gaps, InOrder, InOrder-le, OnTime, After, create-After,
  exit-After, untouched-OnTime,
}

-- What a run leaves.
record Ran (origin gone stop : ℕ) (s' : Threads) : Type 0 where
  since' : ℕ
  on_time : OnTime origin gone since' s'
  not_later : since' ≤ stop

run-Ran :
    (origin gone since now stop : ℕ) (es : List Event) (s s' : Threads)
    → InPhase s
    → OnTime origin gone since s
    → since ≤ now
    → InOrder es now stop
    → run es s ≡ ok s'
    → Ran origin (gone + gaps es s.alive) stop s'
unfolding run gaps InOrder thread_started thread_returned
run-Ran origin gone since now stop [] s s' p t before (a, fits) e = rw (← ok-injective e) (record {
  since' = since;
  on_time = subst (λ g. OnTime origin g since s) (omega arith) t;
  not_later = omega arith;
})
run-Ran origin gone since now stop (create r ∷ es) s s' p t before (a, b, order) e =
    let (s₁, step, rest) = >>=-eq-ok (happen (create r) s) (run es) e in
    let (later, fits) = InOrder-le es (r.tsc 2) stop order in
    let h = create-After origin gone since now r s s₁ p t before a b (omega arith) step in
    let (p₁, alive_eq, _) = event-Advances (create r) s s₁ p step in
    let ran =
      run-Ran origin (gone + gap (create r) s.alive) h.since' (r.tsc 2) stop es s₁ s' p₁ h.on_time
        h.not_later order rest in
    subst (λ g. Ran origin g stop s') (ground (arith, alive_eq)) ran
run-Ran origin gone since now stop (exit tsc ∷ es) s s' p t before (a, b, order) e =
    let (s₁, step, rest) = >>=-eq-ok (happen (exit tsc) s) (run es) e in
    let (several, gone_one) = exit_happens tsc s s₁ step in
    let (later, fits) = InOrder-le es (tsc 1) stop order in
    let h = exit-After origin gone since now tsc s s₁ t before a b (omega arith) several gone_one in
    let (p₁, alive_eq, _) = event-Advances (exit tsc) s s₁ p step in
    let ran =
      run-Ran origin (gone + gap (exit tsc) s.alive) h.since' (tsc 1) stop es s₁ s' p₁ h.on_time
        h.not_later order rest in
    subst (λ g. Ran origin g stop s') (ground (arith, alive_eq)) ran
run-Ran origin gone since now stop (started i q u ∷ es) s s' p t before order e =
    let s₁ = thread_started i q u s in
    let (p₁, alive_eq, _) = event-Advances (started i q u) s s₁ p refl in
    let ran =
      run-Ran origin gone since now stop es s₁ s' p₁
        (untouched-OnTime origin gone since (started i q u) s s₁ refl refl t) before order e in
    subst (λ g. Ran origin g stop s') (ground (arith, alive_eq)) ran
run-Ran origin gone since now stop (returned i u ∷ es) s s' p t before order e =
    let s₁ = thread_returned i u s in
    let (p₁, alive_eq, _) = event-Advances (returned i u) s s₁ p refl in
    let ran =
      run-Ran origin gone since now stop es s₁ s' p₁
        (untouched-OnTime origin gone since (returned i u) s s₁ refl refl t) before order e in
    subst (λ g. Ran origin g stop s') (ground (arith, alive_eq)) ran

initialize-OnTime :
    (r : Request) (self : ℕ) (s : Threads)
    → initialize r self ≡ ok s
    → OnTime (r.tsc 1) 0 (r.tsc 1) s
unfolding initialize alloc_thread_index total
initialize-OnTime r self s e = record { begun = ground arith; accounted = ground arith }

-- When the run ends: the times of all levels, together with the gaps between the stop of a level
-- and the start of the next, are the time from the start of the first level to the end. The
-- readings of the counter do not go back and fit into 64 bits.
pub levels_add_up :
    (r : Request) (self stop : ℕ) (es : List Event) (s s' s'' : Threads)
    → initialize r self ≡ ok s
    → run es s ≡ ok s'
    → finalize stop s' ≡ ok s''
    → InOrder es (r.tsc 1) stop
    → time_of_levels (s''.level + 1) s'' + gaps es 1 + r.tsc 1 ≡ stop
unfolding finalize total
levels_add_up r self stop es s s' s'' e h f order =
    let (p, one, _) = initialize-InPhase r self s e in
    let ran =
      run-Ran (r.tsc 1) 0 (r.tsc 1) (r.tsc 1) stop es s s' p (initialize-OnTime r self s e)
        (omega arith) order h in
    let t = ran.on_time in
    let (_, fits) = InOrder-le es (r.tsc 1) stop order in
    let level_eq : s''.level ≡ s'.level = ground arith in
    let same = total_same s'.level s'.levels s''.levels (λ i below. ground arith) in
    let spent : (s''.levels s'.level).elapse
        ≡ get_elapsed_cycle (s'.levels s'.level).start_time (get_tsc stop) =
      ground arith in
    let spent' : (s''.levels s'.level).elapse ≡ stop - ran.since' =
      spent
      ∙ ap (λ i. get_elapsed_cycle i (get_tsc stop)) t.begun
      ∙ elapsed_exact ran.since' stop ran.not_later fits in
    ap (λ n. time_of_levels (n + 1) s'' + gaps es 1 + r.tsc 1) level_eq
    ∙ ground (arith, same, spent', t.accounted, ran.not_later, one)
