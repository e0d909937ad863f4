-- ===== src/Threads/Calls.antt =====
-- The intercepted calls on threads (source/libdefault.cpp and source/xthread.h): `thread_create`
-- and `thread_join` with what the system's function returns, and the end of the run.
use sync_perf.Base.{
  ℕ, zero, suc, ◌+◌, ◌-◌, ◌<◌, ◌≡◌, refl, sym, ap, ◌∙◌, arith, List, [], ◌∷◌, ltb, ◌==◌,
  if◌then◌else◌,
}
use sync_perf.Clock.{get_tsc}
use sync_perf.Threads.Table.{
  Threads, Request, Result, ok, ◌>>=◌, >>=-eq-ok, ok-injective, alloc_thread_index,
  mark_thread_exit, initialize, thread_started, thread_returned, stop_level,
}
use sync_perf.Threads.Phases.{
  create, exit, started, returned, InPhase, initialize-InPhase, event-Advances,
}

-- The calls of the program, and what the threads do of their own. A call of `pthread_create` or
-- `pthread_join` carries the value that the system's function returns.
pub data ThreadCall : Type 0 where
  thread_create : Request → (result : ℕ) → ThreadCall
  thread_join : (ret : ℕ) → (tsc : ℕ → ℕ) → ThreadCall
  start_thread : (index self tid : ℕ) → ThreadCall
  end_thread : (index tsc : ℕ) → ThreadCall

-- `thread_create`: the index is allocated before the system is asked, and what the system returns
-- is passed on.
abbrev create_thread : Request → (result : ℕ) → Threads → Result Threads
create_thread r result s = alloc_thread_index r s

-- `thread_join`: a join that succeeded marks an exit.
abbrev join_thread : (ret : ℕ) → (ℕ → ℕ) → Threads → Result Threads
join_thread ret tsc s = if ret == 0 then mark_thread_exit tsc s else ok s

abbrev pub call_thread : ThreadCall → Threads → Result Threads
call_thread (thread_create r result) s = create_thread r result s
call_thread (thread_join ret tsc) s = join_thread ret tsc s
call_thread (start_thread index self tid) s = ok (thread_started index self tid s)
call_thread (end_thread index tsc) s = ok (thread_returned index tsc s)

unfoldable pub call_threads : List ThreadCall → Threads → Result Threads
call_threads [] s = ok s
call_threads (c ∷ cs) s = call_thread c s >>= λ s'. call_threads cs s'

-- `finalize` ends the last level.
unfoldable pub finalize : (tsc : ℕ) → Threads → Result Threads
finalize tsc s = stop_level (get_tsc tsc) s

-- The threads that the system has created and that are not joined.
abbrev pub unjoined_after : ThreadCall → ℕ → ℕ
unjoined_after (thread_create r result) n = if result == 0 then n + 1 else n
unjoined_after (thread_join ret tsc) n = if ret == 0 then n - 1 else n
unjoined_after _ n = n

unfoldable pub unjoined : List ThreadCall → ℕ → ℕ
unjoined [] n = n
unjoined (c ∷ cs) n = unjoined cs (unjoined_after c n)

-- A join succeeds only for a thread that the system has created and that is not joined yet.
abbrev pub MayJoin : ThreadCall → ℕ → Type 0
MayJoin (thread_join zero tsc) n = 0 < n
MayJoin _ n = Unit

unfoldable pub Honest : List ThreadCall → ℕ → Type 0
Honest [] n = Unit
Honest (c ∷ cs) n = MayJoin c n × Honest cs (unjoined_after c n)

-- The creations that failed.
unfoldable pub failures : List ThreadCall → ℕ
failures [] = 0
failures (thread_create r zero ∷ cs) = failures cs
failures (thread_create r (suc e) ∷ cs) = failures cs + 1
failures (thread_join ret tsc ∷ cs) = failures cs
failures (start_thread index self tid ∷ cs) = failures cs
failures (end_thread index tsc ∷ cs) = failures cs

-- One call of the program keeps the phase, and counts a creation and a join.
failed : ThreadCall → ℕ
failed (thread_create r (suc e)) = 1
failed _ = 0

call-InPhase :
    (c : ThreadCall) (s s' : Threads) (n lost : ℕ)
    → InPhase s
    → s.alive ≡ 1 + n + lost
    → MayJoin c n
    → call_thread c s ≡ ok s'
    → InPhase s' × (s'.alive ≡ 1 + unjoined_after c n + (lost + failed c))
unfolding failed
call-InPhase (thread_create r zero) s s' n lost p count may e =
    let (p', alive_eq, _) = event-Advances (create r) s s' p e in (p', omega arith)
call-InPhase (thread_create r (suc code)) s s' n lost p count may e =
    let (p', alive_eq, _) = event-Advances (create r) s s' p e in (p', ground (arith, alive_eq))
call-InPhase (thread_join zero tsc) s s' n lost p count may e =
    let (p', alive_eq, _) = event-Advances (exit tsc) s s' p (ground arith) in (p', omega arith)
call-InPhase (thread_join (suc code) tsc) s s' n lost p count may e =
    let unchanged : call_thread (thread_join (suc code) tsc) s ≡ ok s = ground arith in
    rw (← ok-injective (sym unchanged ∙ e)) (p, ground arith)
call-InPhase (start_thread i q t) s s' n lost p count may e =
    let (p', alive_eq, _) = event-Advances (started i q t) s s' p e in (p', omega arith)
call-InPhase (end_thread i t) s s' n lost p count may e =
    let (p', alive_eq, _) = event-Advances (returned i t) s s' p e in (p', omega arith)

failures-eq : (c : ThreadCall) (cs : List ThreadCall) → failures (c ∷ cs) ≡ failures cs + failed c
unfolding failures failed
failures-eq (thread_create r zero) cs = omega arith
failures-eq (thread_create r (suc code)) cs = refl
failures-eq (thread_join ret tsc) cs = omega arith
failures-eq (start_thread i q t) cs = omega arith
failures-eq (end_thread i t) cs = omega arith

calls-InPhase :
    (cs : List ThreadCall) (s s' : Threads) (n lost : ℕ)
    → InPhase s
    → s.alive ≡ 1 + n + lost
    → Honest cs n
    → call_threads cs s ≡ ok s'
    → InPhase s' × (s'.alive ≡ 1 + unjoined cs n + (lost + failures cs))
unfolding call_threads unjoined Honest failures
calls-InPhase [] s s' n lost p count honest e = rw (← ok-injective e) (p, omega arith)
calls-InPhase (c ∷ cs) s s' n lost p count (may, honest) e =
    let (s₁, step, rest) = >>=-eq-ok (call_thread c s) (call_threads cs) e in
    let (p₁, count₁) = call-InPhase c s s₁ n lost p count may step in
    let (p', count') =
      calls-InPhase cs s₁ s' (unjoined_after c n) (lost + failed c) p₁ count₁ honest rest in
    (
      p',
      count' ∙ ap (λ m. 1 + unjoined cs (unjoined_after c n) + m) (omega (arith, failures-eq c cs)),
    )

-- After any sequence of the intercepted creations and joins, and of starts and ends of threads,
-- that returns, where a join succeeds only for a thread that was created and is not joined yet: the
-- count of the threads alive is the main thread, the threads that are not joined and one for each
-- creation that failed, and the multithreading flag says whether this is more than one.
pub alive_counts_calls :
    (r : Request) (self : ℕ) (cs : List ThreadCall) (s s' : Threads)
    → initialize r self ≡ ok s
    → Honest cs 0
    → call_threads cs s ≡ ok s'
    → (s'.alive ≡ 1 + unjoined cs 0 + failures cs)
      × (s'.multithreading ≡ ltb 0 (unjoined cs 0 + failures cs))
alive_counts_calls r self cs s s' e honest h =
    let (p, one, _) = initialize-InPhase r self s e in
    let (p', count) = calls-InPhase cs s s' 0 0 p one honest h in
    (omega arith, p'.flag ∙ ground (arith, count))
