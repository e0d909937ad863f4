-- ===== src/Condvar/Wait.antt =====
-- source/cond_wait.c, built without the requeueing to a priority-inheritance mutex.
use sync_perf.Base.{
  ℕ, zero, suc, ◌+◌, ◌-◌, Bool, false, not, ◌&&◌, ◌||◌, List, [], ◌∷◌, ◌==◌, ltb, if◌then◌else◌,
  inc32, u32, u64,
}
use sync_perf.Clock.{get_tsc}
use sync_perf.Manager.Counters.{count_cond_wait, add_cond_cycles}
use sync_perf.Mutex.State.{PMutex, Kernel, Call, Outcome, done, blocked, aborted, undefined, ◌>>=◌}
use sync_perf.Mutex.LowLevel.{cond_variant}
use sync_perf.Mutex.Lock.{mutex_lock}
use sync_perf.Mutex.Unlock.{unlock_usercnt}

-- `pthread_cond_t.__data`; the counters of sequences are 64 bits wide.
pub record Condvar : Type 0 where
  pub futex : ℕ
  pub total_seq : ℕ
  pub wakeup_seq : ℕ
  pub woken_seq : ℕ
  pub nwaiters : ℕ
  pub broadcast_seq : ℕ
  pub mutex : ℕ  -- the address of the entry's mutex

abbrev pub inc64 : ℕ → ℕ
inc64 n = u64 (n + 1)

-- `1 << COND_NWAITERS_SHIFT`
abbrev pub one_waiter : ℕ
one_waiter = 2

-- `~0l`, which stands in the place of the mutex where processes share the variable.
abbrev pub shared_mark : ℕ
shared_mark = 18446744073709551615

abbrev pub remember : (address : ℕ) → Condvar → Condvar
remember address d = record d { mutex = if not (d.mutex == shared_mark) then address else d.mutex }

abbrev pub enter : (address : ℕ) → Condvar → Condvar
enter address d = remember address (record d {
  total_seq = inc64 d.total_seq;
  futex = inc32 d.futex;
  nwaiters = u32 (d.nwaiters + one_waiter);
})

abbrev pub leave : Condvar → Condvar
leave d = record d { nwaiters = u32 (d.nwaiters + 4294967296 - one_waiter) }

-- The test at the end of the loop: stay while it holds.
abbrev pub not_eligible : ℕ → Condvar → Bool
not_eligible seq d = (d.wakeup_seq == seq) || (d.woken_seq == d.wakeup_seq)

-- The `do` loop, from its lock of the condition variable being given up. At each wait the other
-- threads act on the variable. The result says how often the thread waited.
unfoldable pub wait_loop :
    List (Condvar → Condvar) → (seq bc_seq waits : ℕ) → Condvar → Outcome (ℕ × Condvar)
wait_loop [] seq bc_seq waits d = blocked
wait_loop (f ∷ fs) seq bc_seq waits d =
    let d' = f d in
    let again = wait_loop fs seq bc_seq (waits + 1) d' in
    if not (bc_seq == d'.broadcast_seq)
    then done (waits + 1, leave d')
    else if not_eligible seq d'
    then again
    else done (waits + 1, leave (record d' { woken_seq = inc64 d'.woken_seq }))

-- The condition variable over the whole wait, from the increments on.
unfoldable pub wait_on : List (Condvar → Condvar) → (address : ℕ) → Condvar → Outcome (ℕ × Condvar)
unfolding wait_loop
wait_on others address d =
    let d₁ = enter address d in wait_loop others d₁.wakeup_seq d₁.broadcast_seq 0 d₁

-- Whom a thread that leaves the variable wakes: the caller of pthread_cond_destroy, or all who
-- sleep on the variable.
pub data Wake : Type 0 where
  destroyer everyone : Wake

-- The variable is being destroyed, and its last waiter has left.
abbrev pub was_last : Condvar → Bool
was_last d = (d.total_seq == 18446744073709551615) && ltb d.nwaiters one_waiter

abbrev pub wakes_behind : Condvar → List Wake
wakes_behind d = if was_last d then destroyer ∷ [] else []

-- `inc_cond_wait_count` and `start_timestamp`, once for each wait.
abbrev pub note_waits : ℕ → Call → Call
note_waits zero c = c
note_waits (suc n) c =
    note_waits n (record c { stat = count_cond_wait c.stat; readings = c.readings + 1 })

-- `add_cond_wait_time`, from the last reading.
abbrev pub note_time : Call → Call
note_time c = record c {
  stat = add_cond_cycles (get_tsc (c.tsc (c.readings - 1))) (get_tsc (c.tsc c.readings)) c.stat;
  readings = c.readings + 1;
}

-- What a wait returns and leaves.
pub record Waited : Type 0 where
  pub code : ℕ
  pub condvar : Condvar
  pub woken : List Wake
  pub call : Call

-- From the unlocked mutex on: wait, relock, and add the time.
unfoldable pub wait_and_relock :
    Kernel
    → List (Condvar → Condvar)
    → (waiting : PMutex → PMutex) → (address : ℕ) → Condvar
    → Call
    → Outcome Waited
unfolding wait_on mutex_lock
wait_and_relock k others waiting address d c = do
  (waits, d₁) ← wait_on others address d
  (ret, c₁) ← mutex_lock k cond_variant (note_waits waits (record c { mutex = waiting c.mutex }))
  done (record { code = ret; condvar = d₁; woken = wakes_behind d₁; call = note_time c₁ })

-- `pthread_cond_wait`, on the mutex of the entry, which stands at `address`: `waiting` is what
-- happens to the mutex while the thread waits. (The code keeps the time stamp in a pointer's place;
-- the model gives it room.)
unfoldable pub cond_wait :
    Kernel
    → List (Condvar → Condvar)
    → (waiting : PMutex → PMutex) → (address : ℕ) → Condvar
    → Call
    → Outcome Waited
unfolding wait_and_relock unlock_usercnt
cond_wait k others waiting address d c = do
  (code, c₁) ← unlock_usercnt k false c
  if code == 0
      then wait_and_relock k others waiting address d c₁
      else done (record { code = code; condvar = d; woken = []; call = c₁ })

-- `__condvar_cleanup`, for a thread that is cancelled in its wait: the variable.
unfoldable pub cleanup_waiter : (bc_seq : ℕ) → Condvar → Condvar
cleanup_waiter bc_seq d =
    let woken = record d { woken_seq = inc64 d.woken_seq } in
    leave (
      if not (bc_seq == d.broadcast_seq)
      then d
      else if ltb d.wakeup_seq d.total_seq
      then record woken { wakeup_seq = inc64 d.wakeup_seq; futex = inc32 d.futex }
      else woken)

-- The relock: `__pthread_mutex_cond_lock` takes the program's mutex and is given the entry's, so it
-- takes the first word, the lock word and the count, for the pointer to an entry.
abbrev pub cleanup_relock : Call → Outcome Call
cleanup_relock c = if (c.mutex.lock == 0) && (c.mutex.count == 0) then aborted else undefined

-- The whole handler: the variable and the wakes that it leaves, and the relock.
unfoldable pub condvar_cleanup : (bc_seq : ℕ) → Condvar → Call → Condvar × List Wake × Outcome Call
unfolding cleanup_waiter
condvar_cleanup bc_seq d c =
    let d₁ = cleanup_waiter bc_seq d in
    (d₁, if was_last d₁ then destroyer ∷ [] else everyone ∷ [], cleanup_relock c)
