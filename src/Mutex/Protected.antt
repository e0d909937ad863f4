-- ===== src/Mutex/Protected.antt =====
-- A lock and an unlock of a priority-protection mutex (source/mutex_lock.c, mutex_unlock.c, tpp.c).
use sync_perf.Base.{
  ◌/◌, ◌%◌, ◌&&◌, ◌==◌, List, [], ◌∷◌, ℕ, ◌+◌, ◌*◌, ◌-◌, ◌<◌, ◌≤◌, ◌≡◌, sym, ap, ◌∙◌, arith, Bool,
  true, false, Option, none, some, ltb, inc32, if◌then◌else◌,
}
use sync_perf.Mutex.Kinds.{decode, flavor, mutex_type, ceiling_of, timed}
use sync_perf.Mutex.State.{
  PMutex, Tpp, done-injective, Self, Kernel, Call, Outcome, done, ◌>>=◌, set_lock, set_count,
  set_owner, proceed,
}
use sync_perf.Mutex.LowLevel.{normal}
use sync_perf.Mutex.Ceilings.Highest.{IsHighest}
use sync_perf.Mutex.Restore.{change_priority_restores}
use sync_perf.Mutex.Priority.{own_tpp, current_priority, change_priority}
use sync_perf.Mutex.Lock.Protect.{
  acquired, try_ceiling, round_at, round, protect_loop, lock_protect,
}
use sync_perf.Mutex.Lock.{mutex_lock, lock_switch, lock_finish}
use sync_perf.Mutex.Unlock.{
  leave_user, unlock_plain, unlock_full, release_word, release_protect, mutex_unlock,
}

-- A priority-protection mutex without a type of its own that no thread holds: its word is its
-- ceiling.
pub record IsFreeProtected (m : PMutex) : Type 0 where
  pub is_protected : m.kind ≡ 64
  pub unlocked : m.lock ≡ ceiling_of m.lock * 524288
  pub unowned : m.owner ≡ 0
  pub users : m.nusers < 4294967295

-- The thread does not run above the ceiling, and takes it.
pub record Takes (k : Kernel) (p : ℕ) (s s₁ : Self) : Type 0 where
  pub priority : ℕ
  pub scheduled : Self
  pub known : current_priority k s ≡ (some priority, scheduled)
  pub not_above : priority ≤ p
  pub change : change_priority k none (some p) scheduled ≡ done (0, s₁)

takes_word :
    (c : Call) (s₁ : Self)
    → c.mutex.lock ≡ ceiling_of c.mutex.lock * 524288
    → try_ceiling normal (ceiling_of c.mutex.lock) (record c { self = s₁ })
      ≡ acquired (set_lock (ceiling_of c.mutex.lock * 524288 + 1) (record c { self = s₁ }))
takes_word c s₁ free = ground (arith, free)

round_at-acquires :
    (k : Kernel) (c : Call) (priority : ℕ) (s₁ : Self)
    → priority ≤ ceiling_of c.mutex.lock
    → change_priority k none (some (ceiling_of c.mutex.lock)) c.self ≡ done (0, s₁)
    → c.mutex.lock ≡ ceiling_of c.mutex.lock * 524288
    → round_at k normal none (ceiling_of c.mutex.lock) (some priority) c
      ≡ done (acquired (set_lock (ceiling_of c.mutex.lock * 524288 + 1) (record c { self = s₁ })))
round_at-acquires k c priority s₁ low e free =
    let not_high : ltb (ceiling_of c.mutex.lock) priority ≡ false = ground (arith, low) in
    rw (not_high, e) (ap (λ r. done r) (takes_word c s₁ free))

round-acquires :
    (k : Kernel) (c : Call) (s₁ : Self)
    → Takes k (ceiling_of c.mutex.lock) c.self s₁
    → c.mutex.lock ≡ ceiling_of c.mutex.lock * 524288
    → round k normal none c.mutex.lock c
      ≡ done (acquired (set_lock (ceiling_of c.mutex.lock * 524288 + 1) (record c { self = s₁ })))
unfolding round
round-acquires k c s₁ t free =
    ap
      (λ (r : Option ℕ × Self).
        round_at k normal none (ceiling_of c.mutex.lock) r.0 (record c { self = r.1 }))
      t.known
    ∙ round_at-acquires k (record c { self = t.scheduled }) t.priority s₁ t.not_above t.change free

-- The state with the mutex locked.
abbrev pub locked : Call → Self → Call
locked c s₁ = record c {
  mutex = record (c.mutex) {
    lock = ceiling_of c.mutex.lock * 524288 + 1;
    owner = s₁.tid;
    nusers = c.mutex.nusers + 1;
    count = 1;
  };
  self = s₁;
}

pub and-false : (b : Bool) → (b && false) ≡ false
and-false b = ground arith

-- The end of both loops.
loop-acquired :
    (others : List (PMutex → PMutex)) (k : Kernel) (c : Call)
    → c.mutex.owner ≡ 0
    → protect_loop others k normal (done (acquired c)) ≡ done (proceed (set_count 1 c))
unfolding protect_loop
loop-acquired [] k c unowned = ground arith
loop-acquired (f ∷ fs) k c unowned = ground arith

-- The state before the ownership is recorded.
abbrev word_taken : Call → Self → Call
word_taken c s₁ = set_lock (ceiling_of c.mutex.lock * 524288 + 1) (record c { self = s₁ })

lock_protect-free :
    (k : Kernel) (c : Call) (s₁ : Self)
    → IsFreeProtected c.mutex
    → Takes k (ceiling_of c.mutex.lock) c.self s₁
    → lock_protect k timed normal c ≡ done (proceed (set_count 1 (word_taken c s₁)))
unfolding lock_protect
lock_protect-free k c s₁ free t = rw (and-false (c.mutex.owner == c.self.tid)) (
    ap (protect_loop c.others k normal) (round-acquires k c s₁ t free.unlocked)
    ∙ loop-acquired c.others k (word_taken c s₁) free.unowned)

inc32-users : (n : ℕ) → n < 4294967295 → inc32 n ≡ n + 1
inc32-users n h = omega arith

protected_lock :
    (k : Kernel) (c : Call) (s₁ : Self)
    → IsFreeProtected c.mutex
    → Takes k (ceiling_of c.mutex.lock) c.self s₁
    → mutex_lock k normal c ≡ done (0, locked c s₁)
unfolding mutex_lock
protected_lock k c s₁ free t =
    ap (λ kind. lock_switch (decode kind) k normal c >>= λ exit. done (lock_finish normal exit))
      free.is_protected
    ∙ ap (λ o. o >>= λ exit. done (lock_finish normal exit)) (lock_protect-free k c s₁ free t)
    ∙ ap
        (λ n.
          done (0, record (locked c s₁) { mutex = record ((locked c s₁).mutex) { nusers = n } }))
        (inc32-users c.mutex.nusers free.users)

ceiling_of-taken : (p : ℕ) → ceiling_of (p * 524288 + 1) ≡ p
ceiling_of-taken p = omega arith

-- The release leaves the mutex as it was, but for the count.
released :
    (c : Call) (s₁ : Self)
    → IsFreeProtected c.mutex
    → release_word (leave_user true (set_owner 0 (locked c s₁)))
      ≡ record c { mutex = record (c.mutex) { count = 1 }; self = s₁ }
released c s₁ free = ground (arith, free.unlocked, free.unowned, free.users)

release_protect-locked :
    (k : Kernel) (c : Call) (s₁ : Self) (code : ℕ) (s₂ : Self)
    → IsFreeProtected c.mutex
    → change_priority k (some (ceiling_of c.mutex.lock)) none s₁ ≡ done (code, s₂)
    → release_protect k true (locked c s₁)
      ≡ done (code, record c { mutex = record (c.mutex) { count = 1 }; self = s₂ })
unfolding release_protect
release_protect-locked k c s₁ code s₂ free e =
    let after = release_word (leave_user true (set_owner 0 (locked c s₁))) in
    let finish : ℕ × Self → Outcome (ℕ × Call) = λ r. done (r.0, record after { self = r.1 }) in
    ap (λ p. change_priority k (some p) none s₁ >>= finish)
      (ceiling_of-taken (ceiling_of c.mutex.lock))
    ∙ ap (λ o. o >>= finish) e
    ∙ ap (λ (c' : Call). done (code, record c' { self = s₂ })) (released c s₁ free)

protected_unlock :
    (k : Kernel) (c : Call) (s₁ : Self) (code : ℕ) (s₂ : Self)
    → IsFreeProtected c.mutex
    → change_priority k (some (ceiling_of c.mutex.lock)) none s₁ ≡ done (code, s₂)
    → mutex_unlock k (locked c s₁)
      ≡ done (code, record c { mutex = record (c.mutex) { count = 1 }; self = s₂ })
unfolding mutex_unlock
protected_unlock k c s₁ code s₂ free e =
    ap
      (λ kind.
        if mutex_type kind / 4 == 0
        then unlock_plain (flavor kind) (kind / 256 % 2 == 1) true (locked c s₁)
        else unlock_full (decode (mutex_type kind)) k true (locked c s₁))
      free.is_protected
    ∙ release_protect-locked k c s₁ code s₂ free e

-- A lock of a free priority-protection mutex without a type of its own, by a thread that does not
-- run above its ceiling and to which the system does not refuse the ceiling, returns 0 with the word
-- locked at the ceiling and the thread as the owner; and the unlock after it returns, wakes nobody,
-- and leaves the mutex as it was, but for a recursion count of 1, and the thread with the ceilings
-- of before; if the recorded maximum of these is right, the ceiling is within the kernel's range,
-- and its count is not exhausted.
pub protected_lock_unlock :
    (k : Kernel) (c : Call) (s₁ : Self) (t : Tpp)
    → IsFreeProtected c.mutex
    → (takes : Takes k (ceiling_of c.mutex.lock) c.self s₁) → own_tpp k takes.scheduled ≡ some t
    → IsHighest k.priority_min t
    → k.priority_min ≤ ceiling_of c.mutex.lock
    → ceiling_of c.mutex.lock ≤ k.priority_max
    → t.priomap (ceiling_of c.mutex.lock - k.priority_min) + 1 < 4294967296
    → (code : ℕ) × (s₂ : Self) × (mutex_lock k normal c ≡ done (0, locked c s₁))
      × (mutex_unlock k (locked c s₁)
          ≡ done (code, record c { mutex = record (c.mutex) { count = 1 }; self = s₂ }))
      × (s₂.tpp ≡ some t)
protected_lock_unlock k c s₁ t free takes own h low high room =
    let p = ceiling_of c.mutex.lock in
    let (r, r', t₁, e, e', _, _, _, restored) =
      change_priority_restores k p t takes.scheduled own h low high room in
    let same : r ≡ (0, s₁) = done-injective (sym e ∙ takes.change) in
    let back : change_priority k (some p) none s₁ ≡ done r' =
      ap (λ (x : ℕ × Self). change_priority k (some p) none x.1) (sym same) ∙ e' in
    (
      r'.0,
      r'.1,
      protected_lock k c s₁ free takes,
      protected_unlock k c s₁ r'.0 r'.1 free back,
      restored,
    )
