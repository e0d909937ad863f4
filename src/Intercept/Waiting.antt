-- ===== src/Intercept/Waiting.antt =====
-- A wait on a condition variable in two steps, with the calls of other threads in between: the mutex
-- is given up, and, after the sleeps, taken again (source/cond_wait.c).
use sync_perf.Base.{ℕ, ◌≡◌, false}
use sync_perf.Mutex.State.{Kernel, Outcome, done, ◌>>=◌, >>=-eq-done}
use sync_perf.Mutex.LowLevel.{cond_variant}
use sync_perf.Mutex.Lock.{mutex_lock}
use sync_perf.Mutex.Unlock.{unlock_usercnt}
use sync_perf.Condvar.Wait.{note_waits, note_time}
use sync_perf.Intercept.World.{World, Caller, get_mutex, call_on, write_back}
use sync_perf.Intercept.Linking.{IsLinked, write_back-IsLinked, returned_world}

-- `__pthread_mutex_unlock_usercnt (mutex, 0)`, on the mutex of the entry.
unfoldable pub begin_wait : Kernel → Caller → ℕ → World → Outcome (ℕ × World)
unfolding unlock_usercnt
begin_wait k who a w = do
  i ← get_mutex a w
  r ← unlock_usercnt k false (call_on who i w)
  done (r.0, write_back who i r.1 w)

-- The notes of the sleeps, `__pthread_mutex_cond_lock` on the program's mutex, and the time.
unfoldable pub end_wait : Kernel → Caller → (waits : ℕ) → ℕ → World → Outcome (ℕ × World)
unfolding mutex_lock
end_wait k who waits a w = do
  i ← get_mutex a w
  r ← mutex_lock k cond_variant (note_waits waits (call_on who i w))
  done (r.0, write_back who i (note_time r.1) w)

pub begin_wait-IsLinked :
    (k : Kernel) (who : Caller) (a code : ℕ) (w w' : World)
    → IsLinked w
    → begin_wait k who a w ≡ done (code, w')
    → IsLinked w'
unfolding begin_wait
begin_wait-IsLinked k who a code w w' p e =
    let (i, got, rest) =
      >>=-eq-done (get_mutex a w)
        (λ i. unlock_usercnt k false (call_on who i w) >>= λ r. done (r.0, write_back who i r.1 w))
        e in
    let ((code', c), unlocked, same) =
      >>=-eq-done (unlock_usercnt k false (call_on who i w))
        (λ r. done (r.0, write_back who i r.1 w)) rest in
    returned_world code' code _ w' same (write_back-IsLinked who i c w p)

pub end_wait-IsLinked :
    (k : Kernel) (who : Caller) (waits a code : ℕ) (w w' : World)
    → IsLinked w
    → end_wait k who waits a w ≡ done (code, w')
    → IsLinked w'
unfolding end_wait
end_wait-IsLinked k who waits a code w w' p e =
    let (i, got, rest) =
      >>=-eq-done (get_mutex a w)
        (λ i. mutex_lock k cond_variant (note_waits waits (call_on who i w)) >>= λ r.
          done (r.0, write_back who i (note_time r.1) w))
        e in
    let ((code', c), locked, same) =
      >>=-eq-done (mutex_lock k cond_variant (note_waits waits (call_on who i w)))
        (λ r. done (r.0, write_back who i (note_time r.1) w)) rest in
    returned_world code' code _ w' same (write_back-IsLinked who i (note_time c) w p)
