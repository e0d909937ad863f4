-- ===== src/Mutex/Waits.antt =====
-- What the waits of a lock call leave alone (source/mutex_lock.c, source/lowlevellock.h).
use sync_perf.Base.{
  ℕ, zero, suc, ◌+◌, ◌-◌, ◌≤◌, ◌<◌, ◌≡◌, ◌≢◌, arith, List, [], ◌∷◌, u32, eq→==, ne→==, ap,
}
use native.Mathlib.Decide.{ℕ_discrete}
use sync_perf.Manager.Counters.{ThreadMutex}
use sync_perf.Mutex.State.{PMutex, Call, Outcome, done, set_lock, >>=-eq-done}
use sync_perf.Mutex.LowLevel.{
  Variant, normal, cond_variant, taken, lock_wait, lll_mutex_lock, interfere,
}
use sync_perf.Mutex.Lock.Plain.{spin, failed_once}

-- How many of `n` failed attempts are counted.
abbrev pub counted : Variant → ℕ → ℕ
counted normal n = n
counted cond_variant n = 0

-- What a wait leaves alone, and what it gets.
pub record Waited (c c' : Call) : Type 0 where
  pub locked : c'.mutex.lock ≢ 0
  pub same_self : c'.self ≡ c.self
  pub same_stat : c'.stat ≡ c.stat
  pub same_readings : c'.readings ≡ c.readings
  pub same_tsc : c'.tsc ≡ c.tsc
  pub same_conflicts : c'.conflicts ≡ c.conflicts

lock_wait-Waited :
    (others : List (PMutex → PMutex)) (c c' : Call) → lock_wait others c ≡ done c' → Waited c c'
unfolding lock_wait
lock_wait-Waited [] c c' e = cc
lock_wait-Waited (f ∷ fs) c c' e = ground (
  arith,
  lock_wait-Waited fs (record c { mutex = record (f c.mutex) { lock = 2 }; others = fs }) c',
)

-- `lll_lock` or `lll_cond_lock`, where it returns.
pub lll_mutex_lock-Waited : (v : Variant) (c c' : Call) → lll_mutex_lock v c ≡ done c' → Waited c c'
unfolding lll_mutex_lock
lll_mutex_lock-Waited normal c c' e = ground (arith, lock_wait-Waited c.others (set_lock 2 c) c')
lll_mutex_lock-Waited cond_variant c c' e =
    ground (arith, lock_wait-Waited c.others (set_lock 2 c) c')

-- What the spinning loop of an adaptive mutex leaves, from `cnt` with `left` rounds to go.
pub record Spun (v : Variant) (left cnt n : ℕ) (c c' : Call) : Type 0 where
  pub locked : c'.mutex.lock ≢ 0
  pub same_self : c'.self ≡ c.self
  pub rounds : (cnt < n) × (n ≤ cnt + left + 1)
  pub failures : c'.stat.fail_count ≡ u32 (c.stat.fail_count + counted v (n - cnt))

spin_end :
    (v : Variant) (cnt : ℕ) (c : Call) (n : ℕ) (c' : Call)
    → c.stat.fail_count < 4294967296
    → spin v zero cnt c ≡ done (n, c')
    → Spun v zero cnt n c c'
unfolding spin
spin_end normal cnt c n c' small e =
    let (c₁, got, rest) = >>=-eq-done (lll_mutex_lock normal (failed_once c)) _ e in
    let w = lll_mutex_lock-Waited normal (failed_once c) c₁ got in
    ground (arith, w.locked, w.same_self, w.same_stat)
spin_end cond_variant cnt c n c' small e =
    let (c₁, got, rest) = >>=-eq-done (lll_mutex_lock cond_variant c) _ e in
    let w = lll_mutex_lock-Waited cond_variant c c₁ got in
    ground (arith, w.locked, w.same_self, w.same_stat)

interfere_keeps : (c : Call) → ((interfere c).self ≡ c.self) × ((interfere c).stat ≡ c.stat)
interfere_keeps c = ground arith

-- One round: `d` is the state before the attempt that follows the count and the interference.
spin_round :
    (v : Variant) (left cnt : ℕ) (c d : Call) (n : ℕ) (c' : Call)
    → c.stat.fail_count < 4294967296
    → d.self ≡ c.self
    → d.stat.fail_count ≡ u32 (c.stat.fail_count + counted v 1)
    → (d.mutex.lock ≡ 0
        → ◌≡◌ {A = Outcome (ℕ × Call)} (done (cnt + 1, set_lock (taken v) d)) (done (n, c')))
    → (d.mutex.lock ≢ 0 → Spun v left (cnt + 1) n d c')
    → Spun v (suc left) cnt n c c'
spin_round normal left cnt c d n c' small same fail free held = elim (ℕ_discrete d.mutex.lock 0) [
  | yes z ↦ ground (arith, free z)
  | no nz ↦ let s = held nz in ground (arith, s.locked, s.same_self, s.rounds, s.failures)
]
spin_round cond_variant left cnt c d n c' small same fail free held =
    elim (ℕ_discrete d.mutex.lock 0) [
      | yes z ↦ ground (arith, free z)
      | no nz ↦ let s = held nz in ground (arith, s.locked, s.same_self, s.rounds, s.failures)
    ]

pub spin-Spun :
    (v : Variant) (left cnt : ℕ) (c : Call) (n : ℕ) (c' : Call)
    → c.stat.fail_count < 4294967296
    → spin v left cnt c ≡ done (n, c')
    → Spun v left cnt n c c'
unfolding spin
spin-Spun v zero cnt c n c' small e = spin_end v cnt c n c' small e
spin-Spun normal (suc left) cnt c n c' small e =
    let d = interfere (failed_once c) in
    let kept = interfere_keeps (failed_once c) in
    spin_round normal left cnt c d n c' small kept.0 (ap (λ (s : ThreadMutex). s.fail_count) kept.1)
      (λ z. rw (eq→== _ 0 z) at e)
      (λ nz.
        spin-Spun normal left (cnt + 1) d n c' (ground (arith, kept.1)) (rw (ne→== _ 0 nz) at e))
spin-Spun cond_variant (suc left) cnt c n c' small e =
    let d = interfere c in
    let kept = interfere_keeps c in
    spin_round cond_variant left cnt c d n c' small kept.0 (ground (arith, kept.1))
      (λ z. rw (eq→== _ 0 z) at e)
      (λ nz.
        spin-Spun cond_variant left (cnt + 1) d n c' (ground (arith, kept.1))
          (rw (ne→== _ 0 nz) at e))
