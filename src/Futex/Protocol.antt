-- ===== src/Futex/Protocol.antt =====
-- source/lowlevellock.h and source/lowlevellock.S: `n` threads that take and give back one lock
-- word, one shared access at a time, interleaved in any order.
use sync_perf.Base.{ℕ, ◌<◌, ◌≡◌, ◌≢◌, update, dec32}

-- Where a thread stands between two of its accesses to the word.
pub data Pc : Type 0 where
  idle : Pc  -- outside, before the compare-exchange of `lll_lock`
  contended : (eax : ℕ) → Pc  -- entry of `__lll_lock_wait`, with the value read
  waiting : Pc  -- label 1, before the futex call
  asleep : Pc  -- inside FUTEX_WAIT
  swapping : Pc  -- label 2, before the exchange
  owner : Pc  -- after the lock call
  waking : Pc  -- entry of `__lll_unlock_wake`, before the store of 0
  notifying : Pc  -- before FUTEX_WAKE

-- One access of one thread to the word `w`. FUTEX_WAIT sleeps only while the word is 2, and may
-- return early.
pub data Move (w : ℕ) : Pc → ℕ → Pc → Type 0 where
  lock : w ≡ 0 → Move w idle 1 owner
  cond_lock : w ≡ 0 → Move w idle 2 owner
  lock_fails : w ≢ 0 → Move w idle w (contended w)
  trylock_fails : w ≢ 0 → Move w idle w idle
  wait_first : {eax : ℕ} → eax ≡ 2 → Move w (contended eax) w waiting
  swap_first : {eax : ℕ} → eax ≢ 2 → Move w (contended eax) w swapping
  sleep : w ≡ 2 → Move w waiting w asleep
  wait_fails : w ≢ 2 → Move w waiting w swapping
  interrupted : Move w asleep w swapping
  swap_takes : w ≡ 0 → Move w swapping 2 owner
  swap_waits : w ≢ 0 → Move w swapping 2 waiting
  unlock : w ≡ 1 → Move w owner 0 idle
  unlock_slow : w ≢ 1 → Move w owner (dec32 w) waking
  clear : Move w waking 0 notifying

pub record System : Type 0 where
  pub word : ℕ
  pub pc : ℕ → Pc

-- FUTEX_WAKE wakes one sleeper if there is one.
pub data Step (n : ℕ) (s : System) : System → Type 0 where
  act :
      (i : ℕ) {w : ℕ} {p : Pc}
      → i < n
      → Move s.word (s.pc i) w p
      → Step n s (record { word = w; pc = update s.pc i p })
  wake :
      (i j : ℕ)
      → i < n
      → j < n
      → s.pc i ≡ notifying
      → s.pc j ≡ asleep
      → Step n s (record { word = s.word; pc = update (update s.pc i idle) j swapping })
  wake_none :
      (i : ℕ)
      → i < n
      → s.pc i ≡ notifying
      → ((j : ℕ) → j < n → s.pc j ≢ asleep)
      → Step n s (record { word = s.word; pc = update s.pc i idle })

-- LLL_LOCK_INITIALIZER, and no thread has started.
abbrev pub init : System
init = record { word = 0; pc = λ _. idle }

pub data Reach (n : ℕ) : System → Type 0 where
  start : Reach n init
  later : {s t : System} → Reach n s → Step n s t → Reach n t

-- Between the return of a lock call and the access that gives the word back.
abbrev pub holds : Pc → ℕ
holds owner = 1
holds waking = 1
holds _ = 0

abbrev pub sleeps : Pc → ℕ
sleeps asleep = 1
sleeps _ = 0

-- A thread that will wake a sleeper or look at the word again before it can sleep.
abbrev pub alerts : Pc → ℕ
alerts waking = 1
alerts notifying = 1
alerts swapping = 1
alerts _ = 0
