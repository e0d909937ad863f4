-- ===== src/Intercept/Sleeps.antt =====
-- A wait on a condition variable is no access of its mutex (source/cond_wait.c).
use sync_perf.Base.{ℕ, zero, suc, ◌<◌, ◌≤◌, ◌≡◌, ap, ◌+◌, arith, false}
use mathlib.Core.Path.{subst}
use sync_perf.Manager.Counters.{max_sync_entries, max_threads, count_cond_wait}
use sync_perf.Mutex.State.{Kernel, Call, done, ◌>>=◌, >>=-eq-done, done-injective}
use sync_perf.Mutex.LowLevel.{cond_variant}
use sync_perf.Mutex.Lock.{mutex_lock}
use sync_perf.Mutex.Unlock.{unlock_usercnt}
use sync_perf.Mutex.Ensures.{At, AtResult, ensures_result}
use sync_perf.Mutex.Accesses.{mutex_lock-At}
use sync_perf.Mutex.Accesses.Unlock.{unlock_usercnt-At}
use sync_perf.Condvar.Wait.{note_waits, note_time}
use sync_perf.Intercept.World.{World, Caller, get_mutex, call_on, write_back}
use sync_perf.Intercept.Linking.{IsLinked}
use sync_perf.Intercept.Waiting.{begin_wait, end_wait}
use sync_perf.Intercept.Accesses.{
  accesses, SameAccesses, kept_by, at_call, get_mutex-pointer, write_back-SameAccesses,
}

note_waits-At : (n waits : ℕ) (c : Call) → At n c → At n (note_waits waits c)
note_waits-At n zero c h = h
note_waits-At n (suc waits) c h =
    note_waits-At n waits (record c { stat = count_cond_wait c.stat; readings = c.readings + 1 }) h

pub begin_wait-SameAccesses :
    (k : Kernel) (who : Caller) (a code : ℕ) (w w' : World)
    → IsLinked w
    → begin_wait k who a w ≡ done (code, w')
    → w'.pool.cur ≤ max_sync_entries
    → who.index < max_threads
    → SameAccesses w w'
unfolding begin_wait
begin_wait-SameAccesses k who a code w w' p e room hw =
    let (i, got, rest) =
      >>=-eq-done (get_mutex a w)
        (λ i. unlock_usercnt k false (call_on who i w) >>= λ r. done (r.0, write_back who i r.1 w))
        e in
    let (r, unlocked, same) =
      >>=-eq-done (unlock_usercnt k false (call_on who i w))
        (λ r. done (r.0, write_back who i r.1 w)) rest in
    let world : write_back who i r.1 w ≡ w' = ap (λ (x : ℕ × World). x.1) (done-injective same) in
    let (below, index_eq) = p.handed_out a i (get_mutex-pointer a i w got) in
    let hi : i < max_sync_entries = omega (arith, ap (λ (x : World). x.pool.cur) world) in
    subst (λ x. SameAccesses w x) world
      (kept_by who i w (unlock_usercnt k false (call_on who i w)) r index_eq
        (unlock_usercnt-At (accesses w i who.index) k false (call_on who i w)
          (at_call who i w index_eq))
        unlocked hi hw)

pub end_wait-SameAccesses :
    (k : Kernel) (who : Caller) (waits a code : ℕ) (w w' : World)
    → IsLinked w
    → end_wait k who waits a w ≡ done (code, w')
    → w'.pool.cur ≤ max_sync_entries
    → who.index < max_threads
    → SameAccesses w w'
unfolding end_wait
end_wait-SameAccesses k who waits a code w w' p e room hw =
    let (i, got, rest) =
      >>=-eq-done (get_mutex a w)
        (λ i. mutex_lock k cond_variant (note_waits waits (call_on who i w)) >>= λ r.
          done (r.0, write_back who i (note_time r.1) w))
        e in
    let c = note_waits waits (call_on who i w) in
    let (r, locked, same) =
      >>=-eq-done (mutex_lock k cond_variant c)
        (λ r. done (r.0, write_back who i (note_time r.1) w)) rest in
    let world : write_back who i (note_time r.1) w ≡ w' =
      ap (λ (x : ℕ × World). x.1) (done-injective same) in
    let (below, index_eq) = p.handed_out a i (get_mutex-pointer a i w got) in
    let hi : i < max_sync_entries = omega (arith, ap (λ (x : World). x.pool.cur) world) in
    let n = accesses w i who.index in
    let kept =
      ensures_result (AtResult n) (mutex_lock k cond_variant c) r
        (mutex_lock-At n k cond_variant c
          (note_waits-At n waits (call_on who i w) (at_call who i w index_eq)))
        locked in
    subst (λ x. SameAccesses w x) world
      (write_back-SameAccesses who i (note_time r.1) w hi hw index_eq kept)
