-- ===== src/Condvar/Relock.antt =====
-- A whole wait: the mutex given up, the sleeps, the mutex taken again (source/cond_wait.c).
use sync_perf.Base.{
  ℕ, zero, suc, ◌+◌, ◌-◌, ◌<◌, ◌≡◌, ◌≢◌, refl, sym, arith, false, List, ◌==◌, if◌then◌else◌, u32,
}
use mathlib.Core.Path.{subst}
use sync_perf.Clock.{get_tsc, get_elapsed_cycle}
use sync_perf.Manager.Counters.{count_cond_wait}
use sync_perf.Mutex.State.{PMutex, Kernel, Call, done, set_owner, set_lock, set_count}
use sync_perf.Mutex.LowLevel.{cond_variant, lll_unlock}
use sync_perf.Mutex.Lock.{mutex_lock, own}
use sync_perf.Mutex.Unlock.{unlock_usercnt, drop_count}
use sync_perf.Condvar.Wait.{
  Condvar, wait_on, note_waits, note_time, wakes_behind, wait_and_relock, cond_wait,
}

-- The caller holds the mutex, once if the mutex is recursive.
pub record IsHeld (c : Call) : Type 0 where
  pub is_plain : c.mutex.kind < 4
  pub locked : c.mutex.lock ≢ 0
  pub own : c.mutex.owner ≡ c.self.tid
  pub once : c.mutex.count ≡ (if c.mutex.kind == 1 then 1 else 0)

-- A mutex that no thread holds: nobody locked it in the meantime, or who did has unlocked it.
pub record IsLeft (kind nusers : ℕ) (m : PMutex) : Type 0 where
  pub unlocked : m.lock ≡ 0
  pub unowned : m.owner ≡ 0
  pub same_kind : m.kind ≡ kind
  pub same_users : m.nusers ≡ nusers

-- The mutex given up by its holder, for the time of the wait.
abbrev given_up : Call → Call
given_up c = lll_unlock (set_owner 0 (if c.mutex.kind == 1 then drop_count c else c))

unlock-given_up :
    (k : Kernel) (c : Call) → IsHeld c → unlock_usercnt k false c ≡ done (0, given_up c)
unfolding unlock_usercnt
unlock-given_up k c h = ground arith

given_up-IsLeft : (c : Call) → IsLeft c.mutex.kind c.mutex.nusers (given_up c).mutex
given_up-IsLeft c = record {
  unlocked = ground arith;
  unowned = ground arith;
  same_kind = ground arith;
  same_users = ground arith;
}

-- A relock of a free mutex.
abbrev relocked : Call → Call
relocked c = own cond_variant (set_lock 2 (if c.mutex.kind == 1 then set_count 1 c else c))

relock_free :
    (k : Kernel) (c : Call) (kind nusers : ℕ)
    → kind < 4
    → 0 < c.self.tid
    → IsLeft kind nusers c.mutex
    → mutex_lock k cond_variant c ≡ done (0, relocked c)
unfolding mutex_lock
relock_free k c kind nusers small pos left = ground arith

-- The notes of `n` sleeps in the counters, and nothing else.
record Noted (n : ℕ) (c c' : Call) : Type 0 where
  same_mutex : c'.mutex ≡ c.mutex
  same_self : c'.self ≡ c.self
  same_tsc : c'.tsc ≡ c.tsc
  readings : c'.readings ≡ c.readings + n
  cond_waits : c'.stat.cond_waits ≡ u32 (c.stat.cond_waits + n)
  cond_time : c'.stat.cond_futex_wait ≡ c.stat.cond_futex_wait
  accesses : c'.stat.access_count ≡ c.stat.access_count
  fails : c'.stat.fail_count ≡ c.stat.fail_count

note_waits-Noted : (n : ℕ) (c : Call) → c.stat.cond_waits < 4294967296 → Noted n c (note_waits n c)
note_waits-Noted zero c small = record {
  same_mutex = refl;
  same_self = refl;
  same_tsc = refl;
  readings = omega arith;
  cond_waits = ground arith;
  cond_time = refl;
  accesses = refl;
  fails = refl;
}
note_waits-Noted (suc n) c small =
    let h =
      note_waits-Noted n (record c { stat = count_cond_wait c.stat; readings = c.readings + 1 })
        (omega arith) in
    record {
      same_mutex = h.same_mutex;
      same_self = h.same_self;
      same_tsc = h.same_tsc;
      readings = ground (arith, h.readings);
      cond_waits = ground (arith, h.cond_waits);
      cond_time = h.cond_time;
      accesses = h.accesses;
      fails = h.fails;
    }

-- The caller after a wait that slept `waits` times: it owns the mutex again, each sleep is counted,
-- the time from the last sleep's begin is added, and no access, conflict or user is.
pub record IsBack (waits : ℕ) (c c' : Call) : Type 0 where
  pub locked : c'.mutex.lock ≡ 2
  pub owned : c'.mutex.owner ≡ c.self.tid
  pub same_users : c'.mutex.nusers ≡ c.mutex.nusers
  pub sleeps : c'.stat.cond_waits ≡ u32 (c.stat.cond_waits + waits)
  pub slept :
      c'.stat.cond_futex_wait
      ≡ c.stat.cond_futex_wait
        + get_elapsed_cycle
            (get_tsc (c.tsc (c.readings + waits - 1)))
            (get_tsc (c.tsc (c.readings + waits)))
  pub same_accesses : c'.stat.access_count ≡ c.stat.access_count
  pub same_fails : c'.stat.fail_count ≡ c.stat.fail_count

relocked-IsBack :
    (waits : ℕ) (c d e : Call)
    → d.stat ≡ c.stat
    → d.self ≡ c.self
    → d.tsc ≡ c.tsc
    → d.readings ≡ c.readings
    → Noted waits d e
    → e.mutex.nusers ≡ c.mutex.nusers
    → IsBack waits c (note_time (relocked e))
relocked-IsBack waits c d e stat self tsc readings n users = record {
  locked = ground arith;
  owned = ground (arith, n.same_self);
  same_users = ground arith;
  sleeps = ground (arith, n.cond_waits);
  slept = ground (arith, n.cond_time, n.readings, n.same_tsc);
  same_accesses = ground (arith, n.accesses);
  same_fails = ground (arith, n.fails);
}

given_up_keeps :
    (c : Call)
    → ((given_up c).stat ≡ c.stat)
      × ((given_up c).self ≡ c.self)
      × ((given_up c).tsc ≡ c.tsc)
      × ((given_up c).readings ≡ c.readings)
given_up_keeps c = (ground arith, ground arith, ground arith, ground arith)

-- The relock behind a wait that slept.
wait_and_relock-done :
    (k : Kernel) (others : List (Condvar → Condvar)) (waiting : PMutex → PMutex) (address waits : ℕ)
    (d d' : Condvar) (c : Call) (kind nusers : ℕ)
    → kind < 4
    → 0 < c.self.tid
    → c.stat.cond_waits < 4294967296
    → IsLeft kind nusers (waiting c.mutex)
    → wait_on others address d ≡ done (waits, d')
    → wait_and_relock k others waiting address d c
      ≡ done (record {
        code = 0;
        condvar = d';
        woken = wakes_behind d';
        call = note_time (relocked (note_waits waits (record c { mutex = waiting c.mutex })));
      })
unfolding wait_and_relock
wait_and_relock-done k others waiting address waits d d' c kind nusers small pos fits left e =
    let c₁ = record c { mutex = waiting c.mutex } in
    let n = note_waits-Noted waits c₁ fits in
    let left₁ = subst (λ m. IsLeft kind nusers m) (sym n.same_mutex) left in
    rw (e, relock_free k (note_waits waits c₁) kind nusers small (rw n.same_self pos) left₁) refl

-- A wait on a mutex of a plain kind that the caller holds, when the condition variable lets it go
-- after `waits` sleeps and no other thread holds the mutex then, returns 0. The caller owns the
-- mutex again, with as many users as before; the counters record the sleeps and the time from the
-- begin of the last one, and no access and no failure for the relock.
pub cond_wait_returns :
    (k : Kernel) (others : List (Condvar → Condvar)) (waiting : PMutex → PMutex) (address waits : ℕ)
    (d d' : Condvar) (c : Call)
    → IsHeld c
    → 0 < c.self.tid
    → c.stat.cond_waits < 4294967296
    → ((m : PMutex)
        → IsLeft c.mutex.kind c.mutex.nusers m
        → IsLeft c.mutex.kind c.mutex.nusers (waiting m))
    → wait_on others address d ≡ done (waits, d')
    → (c' : Call) × (cond_wait k others waiting address d c
        ≡ done (record { code = 0; condvar = d'; woken = wakes_behind d'; call = c' }))
      × IsBack waits c c'
unfolding cond_wait
cond_wait_returns k others waiting address waits d d' c held pos fits leaves e =
    let g = given_up c in
    let (stat, self, tsc, readings) = given_up_keeps c in
    let left = leaves g.mutex (given_up-IsLeft c) in
    let c₁ = record g { mutex = waiting g.mutex } in
    let n = note_waits-Noted waits c₁ (ground arith) in
    (
      note_time (relocked (note_waits waits c₁)),
      rw (unlock-given_up k c held) (
          wait_and_relock-done k others waiting address waits d d' g c.mutex.kind c.mutex.nusers
            held.is_plain (rw self pos) (ground arith) left e),
      relocked-IsBack waits c c₁ (note_waits waits c₁) stat self tsc readings n
          (ground (arith, n.same_mutex, left.same_users)),
    )
