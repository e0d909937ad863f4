-- ===== src/Mutex/Gaps.antt =====
-- Where the mutex calls do less than they should (source/mutex_lock.c, mutex_trylock.c,
-- mutex_unlock.c).
use sync_perf.Base.{ℕ, ◌≤◌, ◌<◌, ◌≡◌, ◌≢◌, ◌⊎◌, refl, true, false, arith, none, some, dec32, ◌/◌}
use sync_perf.Mutex.Kinds.{einval, enotrecoverable, notrecoverable, futex_owner_died}
use sync_perf.Mutex.State.{
  Self, Kernel, Call, done, aborted, set_mutex, set_count, set_lock, set_pending,
}
use sync_perf.Mutex.LowLevel.{Variant}
use sync_perf.Mutex.Init.{attributes, kind_of, mutex_init, mutex_init_lem}
use sync_perf.Mutex.Lock.{mutex_lock, own}
use sync_perf.Mutex.Priority.{change_priority}
use sync_perf.Mutex.Unlock.{mutex_unlock, release_protect, unlock_protect_recursive}
use sync_perf.Mutex.Trylock.{do_mutex_trylock}

-- A kind with bit 7 is none of the cases of the unmasked `switch`.
lock_pshared :
    (k : Kernel) (v : Variant) (c : Call)
    → 128 ≤ c.mutex.kind
    → c.mutex.kind < 256
    → mutex_lock k v c ≡ done (einval, c)
unfolding mutex_lock
lock_pshared k v c lo hi = ground arith

kind_of_shared :
    (ty protocol r s : ℕ)
    → ty < 4
    → protocol < 3
    → r < 2
    → s < 2
    → (r ≡ 1) ⊎ (s ≡ 1)
    → (128 ≤ kind_of ty protocol r s) × (kind_of ty protocol r s < 256)
kind_of_shared ty protocol r s h₁ h₂ h₃ h₄ either = ground arith

-- With attributes that are robust or shared between processes, of a valid type and protocol and
-- not of the refused robust PROTECT, `pthread_mutex_init` returns 0, and each lock of the new
-- mutex returns EINVAL and changes nothing.
pub shared_unlockable :
    (k : Kernel) (v : Variant) (c : Call) (ty ceiling protocol r s : ℕ)
    → ty < 4
    → ceiling < 4096
    → protocol < 3
    → r < 2
    → s < 2
    → (r ≡ 1) ⊎ (s ≡ 1)
    → (protocol ≡ 2 → r ≡ 0)
    → ((mutex_init c.mutex (attributes ty ceiling protocol r s)).0 ≡ 0)
      × (let c₁ = set_mutex c (mutex_init c.mutex (attributes ty ceiling protocol r s)).1 in
          mutex_lock k v c₁ ≡ done (einval, c₁))
shared_unlockable k v c ty ceiling protocol r s h₁ h₂ h₃ h₄ h₅ either sane =
    let i = mutex_init_lem c.mutex ty ceiling protocol r s h₁ h₂ h₃ h₄ h₅ sane in
    let (lo, hi) = kind_of_shared ty protocol r s h₁ h₃ h₄ h₅ either in
    rw i (refl, lock_pshared k v _ lo hi)

-- The owner of a recursive priority-inheritance mutex, not robust, that it holds once gets 0 from
-- the unlock, and the mutex stays as it was, still locked and owned, but for the count, which is
-- all ones.
pub inherit_unlock_keeps :
    (k : Kernel) (c : Call)
    → c.mutex.kind ≡ 33
    → c.mutex.owner ≡ c.self.tid
    → c.mutex.count ≡ 1
    → mutex_unlock k c ≡ done (0, set_count 4294967295 c)
unfolding mutex_unlock
inherit_unlock_keeps k c kind own once = ground arith

-- A priority below all others is out of range.
give_up_low :
    (k : Kernel) (s : Self) (p : ℕ)
    → p < 1
    → (s.tpp ≢ none) ⊎ (k.calloc ≡ true)
    → change_priority k (some p) none s ≡ aborted
unfolding change_priority
give_up_low k s p low memory = ground arith

release_low :
    (k : Kernel) (c : Call)
    → c.mutex.lock < 524288
    → (c.self.tpp ≢ none) ⊎ (k.calloc ≡ true)
    → release_protect k true c ≡ aborted
unfolding release_protect
release_low k c word memory =
    rw (give_up_low k c.self (c.mutex.lock / 524288) (omega arith) memory) refl

unlock_last_low :
    (k : Kernel) (c : Call)
    → c.mutex.owner ≡ c.self.tid
    → c.mutex.count ≡ 1
    → c.mutex.lock < 524288
    → (c.self.tpp ≢ none) ⊎ (k.calloc ≡ true)
    → unlock_protect_recursive k true c ≡ aborted
unfolding unlock_protect_recursive
unlock_last_low k c own once word memory =
    ground (arith, release_low k (set_count (dec32 c.mutex.count) c) word memory)

-- The owner of any other priority-inheritance mutex without bit 7 that it holds once, at a lock
-- word below 2 ^ 19, fails an assertion in the unlock, if the thread has its table of priorities
-- or there is memory for it.
pub inherit_unlock_aborts :
    (k : Kernel) (c : Call)
    → (32 ≤ c.mutex.kind) × (c.mutex.kind < 36) ⊎ (48 ≤ c.mutex.kind) × (c.mutex.kind < 52)
    → c.mutex.kind ≢ 33
    → c.mutex.owner ≡ c.self.tid
    → c.mutex.count ≡ 1
    → c.mutex.lock < 524288
    → (c.self.tpp ≢ none) ⊎ (k.calloc ≡ true)
    → mutex_unlock k c ≡ aborted
unfolding mutex_unlock
inherit_unlock_aborts k c kind rec own once word memory =
    ground (arith, unlock_last_low k c own once word memory)

-- `do_mutex_trylock` on a free robust mutex that is not recoverable returns ENOTRECOVERABLE, and
-- leaves the lock word at the identifier of the calling thread, so that a next trylock by another
-- thread finds the mutex busy.
pub lost_robust_stays_locked :
    (k : Kernel) (c : Call)
    → 16 ≤ c.mutex.kind
    → c.mutex.kind < 20
    → c.mutex.owner ≡ notrecoverable
    → c.mutex.lock ≡ 0
    → 0 < c.self.tid
    → c.self.tid < futex_owner_died
    → do_mutex_trylock k c
      ≡ done (enotrecoverable, set_pending false (set_count 0 (set_lock c.self.tid c)))
unfolding do_mutex_trylock
lost_robust_stays_locked k c lo hi lost free pos small = ground arith

-- A lock of a robust mutex whose kind has no bit 7 and is not adaptive returns 0 at once, whoever
-- holds the mutex: it makes the caller the owner, and the lock word stays as it was.
pub robust_lock_takes_nothing :
    (k : Kernel) (v : Variant) (c : Call)
    → 16 ≤ c.mutex.kind
    → c.mutex.kind < 19
    → mutex_lock k v c ≡ done (0, own v c)
unfolding mutex_lock
robust_lock_takes_nothing k v c lo hi = ground arith
