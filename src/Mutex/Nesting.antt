-- ===== src/Mutex/Nesting.antt =====
-- Nested locks of a recursive mutex (source/mutex_lock.c, source/mutex_unlock.c).
use sync_perf.Base.{ℕ, zero, suc, ◌+◌, ◌<◌, ◌≡◌, refl, ap, ◌∙◌, Option, none, some, arith}
use sync_perf.Mutex.State.{Kernel, Call, Outcome, done, set_lock, set_count}
use sync_perf.Mutex.LowLevel.{normal}
use sync_perf.Mutex.Lock.{mutex_lock, own}
use sync_perf.Mutex.Unlock.{mutex_unlock}
use sync_perf.Mutex.Pairing.{IsFree}

-- The state after a call that returns 0.
abbrev pub succeeds : Outcome (ℕ × Call) → Option Call
succeeds (done (zero, c)) = some c
succeeds _ = none

-- `n` calls in a row that all return 0.
unfoldable pub times : (Call → Outcome (ℕ × Call)) → ℕ → Call → Option Call
times op zero c = some c
times op (suc n) c = elim (succeeds (op c)) [ none ↦ none | some c' ↦ times op n c' ]

-- The first of the calls.
times-suc :
    (op : Call → Outcome (ℕ × Call)) (n : ℕ) (c c' : Call)
    → op c ≡ done (0, c')
    → times op (suc n) c ≡ times op n c'
unfolding times
times-suc op n c c' e = rw (e, times) refl

-- The state with `n` nested locks held.
unfoldable pub nested : ℕ → Call → Call
nested zero c = c
nested (suc n) c = set_count (suc n) (own normal (set_lock 1 c))

lock-nested :
    (k : Kernel) (n : ℕ) (c : Call)
    → IsFree c.mutex
    → c.mutex.kind ≡ 1
    → 0 < c.self.tid
    → n < 4294967295
    → mutex_lock k normal (nested n c) ≡ done (0, nested (suc n) c)
unfolding mutex_lock nested
lock-nested k zero c free kind pos small = ground arith
lock-nested k (suc n) c free kind pos small = ground arith

unlock-nested :
    (k : Kernel) (n : ℕ) (c : Call)
    → IsFree c.mutex
    → c.mutex.kind ≡ 1
    → c.mutex.count ≡ 0
    → n < 4294967295
    → mutex_unlock k (nested (suc n) c) ≡ done (0, nested n c)
unfolding mutex_unlock nested
unlock-nested k zero c free kind empty small = ground arith
unlock-nested k (suc n) c free kind empty small = ground arith

locks-nested :
    (k : Kernel) (n m : ℕ) (c : Call)
    → IsFree c.mutex
    → c.mutex.kind ≡ 1
    → 0 < c.self.tid
    → m + n < 4294967296
    → times (mutex_lock k normal) n (nested m c) ≡ some (nested (m + n) c)
unfolding times
locks-nested k zero m c free kind pos small =
    let stay : m ≡ m + 0 = omega arith in ap (λ i. some (nested i c)) stay
locks-nested k (suc n) m c free kind pos small =
    let shift : suc m + n ≡ m + suc n = omega arith in
    times-suc _ n _ _ (lock-nested k m c free kind pos (omega arith))
    ∙ locks-nested k n (suc m) c free kind pos (omega arith)
    ∙ ap (λ i. some (nested i c)) shift

unlocks-nested :
    (k : Kernel) (n : ℕ) (c : Call)
    → IsFree c.mutex
    → c.mutex.kind ≡ 1
    → c.mutex.count ≡ 0
    → n < 4294967296
    → times (mutex_unlock k) n (nested n c) ≡ some c
unfolding times nested
unlocks-nested k zero c free kind empty small = refl
unlocks-nested k (suc n) c free kind empty small =
    times-suc _ n _ _ (unlock-nested k n c free kind empty (omega arith))
    ∙ unlocks-nested k n c free kind empty (omega arith)

-- On a free recursive mutex of count 0, `n` nested locks by one thread all return 0 and leave a
-- count of `n`, and `n` unlocks after them all return 0 and lead back to the first state, for
-- each `n` below 2 ^ 32.
pub recursive_nesting :
    (k : Kernel) (n : ℕ) (c : Call)
    → IsFree c.mutex
    → c.mutex.kind ≡ 1
    → c.mutex.count ≡ 0
    → 0 < c.self.tid
    → n < 4294967296
    → (times (mutex_lock k normal) n c ≡ some (nested n c))
      × (times (mutex_unlock k) n (nested n c) ≡ some c)
unfolding nested
recursive_nesting k n c free kind empty pos small =
    let all : 0 + n ≡ n = omega arith in
    (
      locks-nested k n 0 c free kind pos (omega arith) ∙ ap (λ i. some (nested i c)) all,
      unlocks-nested k n c free kind empty small,
    )
