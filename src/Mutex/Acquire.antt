-- ===== src/Mutex/Acquire.antt =====
-- What a lock call that returns has done (source/mutex_lock.c).
use sync_perf.Base.{ℕ, ◌<◌, ◌≡◌, ◌≢◌, refl, arith, eq→==, ne→==, ap, sym, ◌∙◌}
use native.Mathlib.Decide.{ℕ_discrete}
use sync_perf.Clock.{TimeInfo, get_tsc}
use sync_perf.Mutex.Kinds.{
  Flavor, timed, recursive, errorcheck, adaptive, plain, decode, decode_plain, edeadlk,
}
use sync_perf.Mutex.State.{
  Kernel, Call, done, set_lock, Exit, ◌>>=◌, >>=-eq-done, done-injective, leave, proceed, set_count,
}
use sync_perf.Mutex.LowLevel.{Variant, normal, cond_variant, lll_mutex_lock}
use sync_perf.Mutex.Lock.Plain.{
  lock_recursive, lock_errorcheck, lock_timed, lock_adaptive, spin, max_cnt, unowned, bump_count,
  start_waiting, stop_waiting, lock_timed_contended, after_spin, lock_adaptive_free,
  lock_adaptive_contended,
}
use sync_perf.Mutex.Lock.{mutex_lock, lock_switch, lock_finish}
use sync_perf.Mutex.Waits.{lll_mutex_lock-Waited, spin-Spun}

-- The case of a `switch` that returns with the lock taken: by `break`, or as an owner's relock.
abbrev Gets : Call → Exit → Type 0
Gets c (proceed c') = (c'.mutex.lock ≢ 0) × (c'.self ≡ c.self)
Gets c (leave code c') =
    code ≡ 0
    → (c.mutex.owner ≡ c.self.tid) × (c'.mutex.owner ≡ c.self.tid) × (c'.mutex.lock ≡ c.mutex.lock)

after_wait-Gets :
    (c c₁ : Call) (x : Exit) (n : ℕ)
    → c₁.mutex.lock ≢ 0
    → c₁.self ≡ c.self
    → (unowned c₁ >>= λ c₂. done (proceed (set_count n c₂))) ≡ done x
    → Gets c x
after_wait-Gets c c₁ (proceed c') n locked same e = ground arith
after_wait-Gets c c₁ (leave code c') n locked same e = ground arith

after_plain_wait-Gets :
    (c c₁ : Call) (x : Exit)
    → c₁.mutex.lock ≢ 0
    → c₁.self ≡ c.self
    → (unowned c₁ >>= λ c₂. done (proceed c₂)) ≡ done x
    → Gets c x
after_plain_wait-Gets c c₁ (proceed c') locked same e = ground arith
after_plain_wait-Gets c c₁ (leave code c') locked same e = ground arith

bump-Gets :
    (c : Call) (x : Exit) → c.mutex.owner ≡ c.self.tid → done (bump_count c) ≡ done x → Gets c x
bump-Gets c (proceed c') own e = ground arith
bump-Gets c (leave code c') own e = ground arith

recursive-Gets : (v : Variant) (c : Call) (x : Exit) → lock_recursive v c ≡ done x → Gets c x
unfolding lock_recursive
recursive-Gets v c x e = elim (ℕ_discrete c.mutex.owner c.self.tid) [
  | yes own ↦ bump-Gets c x own (rw (eq→== _ _ own) at e)
  | no other ↦
      let (c₁, got, rest) = >>=-eq-done (lll_mutex_lock v c) _ (rw (ne→== _ _ other) at e) in
      let w = lll_mutex_lock-Waited v c c₁ got in after_wait-Gets c c₁ x 1 w.locked w.same_self rest
]

quiet-Gets :
    (v : Variant) (c : Call) (x : Exit)
    → (lll_mutex_lock v c >>= λ c₁. unowned c₁ >>= λ c₂. done (proceed c₂)) ≡ done x
    → Gets c x
quiet-Gets v c x e =
    let (c₁, got, rest) = >>=-eq-done (lll_mutex_lock v c) _ e in
    let w = lll_mutex_lock-Waited v c c₁ got in
    after_plain_wait-Gets c c₁ x w.locked w.same_self rest

stop_waiting_keeps :
    (t : TimeInfo) (c : Call)
    → ((stop_waiting t c).mutex ≡ c.mutex) × ((stop_waiting t c).self ≡ c.self)
unfolding stop_waiting
stop_waiting_keeps t c = (refl, refl)

after_contended-Gets :
    (t : TimeInfo) (c c₁ : Call) (x : Exit)
    → c₁.mutex.lock ≢ 0
    → c₁.self ≡ c.self
    → (unowned c₁ >>= λ c₂. done (proceed (stop_waiting t c₂))) ≡ done x
    → Gets c x
after_contended-Gets t c c₁ (proceed c') locked same e = ground (arith, stop_waiting_keeps t c₁)
after_contended-Gets t c c₁ (leave code c') locked same e = ground arith

contended-Gets : (c : Call) (x : Exit) → lock_timed_contended c ≡ done x → Gets c x
contended-Gets c x e =
    let start = get_tsc (c.tsc c.readings) in
    let (c₁, got, rest) =
      >>=-eq-done (lll_mutex_lock normal (start_waiting c))
        (λ c₁. unowned c₁ >>= λ c₂. done (proceed (stop_waiting start c₂))) e in
    let w = lll_mutex_lock-Waited normal (start_waiting c) c₁ got in
    after_contended-Gets start c c₁ x w.locked w.same_self rest

timed-Gets : (v : Variant) (c : Call) (x : Exit) → lock_timed v c ≡ done x → Gets c x
unfolding lock_timed
timed-Gets normal c x e = elim (ℕ_discrete c.mutex.lock 2) [
  | yes busy ↦ contended-Gets c x (rw (eq→== _ _ busy) at e)
  | no quiet ↦ quiet-Gets normal c x (rw (ne→== _ _ quiet) at e)
]
timed-Gets cond_variant c x e = quiet-Gets cond_variant c x e

refused-Gets : (c : Call) (code : ℕ) (x : Exit) → code ≢ 0 → done (leave code c) ≡ done x → Gets c x
refused-Gets c code (proceed c') bad e = ground arith
refused-Gets c code (leave code' c') bad e = ground arith

errorcheck-Gets : (v : Variant) (c : Call) (x : Exit) → lock_errorcheck v c ≡ done x → Gets c x
unfolding lock_errorcheck
errorcheck-Gets v c x e = elim (ℕ_discrete c.mutex.owner c.self.tid) [
  | yes own ↦ refused-Gets c edeadlk x (omega arith) (rw (eq→== _ _ own) at e)
  | no other ↦ timed-Gets v c x (rw (ne→== _ _ other) at e)
]

free-Gets : (v : Variant) (c : Call) (x : Exit) → lock_adaptive_free v c ≡ done x → Gets c x
free-Gets normal c x e = after_plain_wait-Gets c (set_lock 1 c) x (omega arith) refl e
free-Gets cond_variant c x e = after_plain_wait-Gets c (set_lock 2 c) x (omega arith) refl e

spun-Gets :
    (v : Variant) (c : Call) (x : Exit)
    → c.stat.fail_count < 4294967296
    → lock_adaptive_contended v c ≡ done x
    → Gets c x
spun-Gets v c x small e =
    let ((n, c₁), got, rest) = >>=-eq-done (spin v (max_cnt c.mutex.spins) 0 c) after_spin e in
    let s = spin-Spun v (max_cnt c.mutex.spins) 0 c n c₁ small got in
    after_plain_wait-Gets c _ x s.locked s.same_self rest

adaptive-Gets :
    (v : Variant) (c : Call) (x : Exit)
    → c.stat.fail_count < 4294967296
    → lock_adaptive v c ≡ done x
    → Gets c x
unfolding lock_adaptive
adaptive-Gets v c x small e = elim (ℕ_discrete c.mutex.lock 0) [
  | yes free ↦ free-Gets v c x (rw (eq→== _ _ free) at e)
  | no held ↦ spun-Gets v c x small (rw (ne→== _ _ held) at e)
]

plain-Gets :
    (f : Flavor) (k : Kernel) (v : Variant) (c : Call) (x : Exit)
    → c.stat.fail_count < 4294967296
    → lock_switch (plain f) k v c ≡ done x
    → Gets c x
unfolding lock_switch
plain-Gets timed k v c x small e = timed-Gets v c x e
plain-Gets recursive k v c x small e = recursive-Gets v c x e
plain-Gets errorcheck k v c x small e = errorcheck-Gets v c x e
plain-Gets adaptive k v c x small e = adaptive-Gets v c x small e

finish-Held :
    (v : Variant) (c : Call) (x : Exit) (c' : Call)
    → (c.mutex.owner ≡ c.self.tid → c.mutex.lock ≢ 0)
    → Gets c x
    → lock_finish v x ≡ (0, c')
    → (c'.mutex.owner ≡ c.self.tid) × (c'.mutex.lock ≢ 0)
finish-Held normal c (proceed d) c' held g e = ground arith
finish-Held cond_variant c (proceed d) c' held g e = ground arith
finish-Held v c (leave code d) c' held g e =
    let (own, owned, same) = g (ap (λ (r : ℕ × Call). r.0) e) in
    let d-eq : d ≡ c' = ap (λ (r : ℕ × Call). r.1) e in
    rw (← d-eq) (owned, λ z. held own (sym same ∙ z))

-- A lock call on a mutex of a plain kind (timed, recursive, error-checking or adaptive) that
-- returns 0, whatever the other threads did while it waited, leaves the mutex locked and owned by
-- the calling thread. It holds of `pthread_mutex_lock` and of the relock after a condition wait,
-- where a mutex that the caller already owns is locked, and the failure count fits its 32 bits.
pub mutex_lock-owns :
    (k : Kernel) (v : Variant) (c c' : Call)
    → c.mutex.kind < 4
    → (c.mutex.owner ≡ c.self.tid → c.mutex.lock ≢ 0)
    → c.stat.fail_count < 4294967296
    → mutex_lock k v c ≡ done (0, c')
    → (c'.mutex.owner ≡ c.self.tid) × (c'.mutex.lock ≢ 0)
unfolding mutex_lock
mutex_lock-owns k v c c' kind held small e =
    let (f, decoded) = decode_plain c.mutex.kind kind in
    let (x, got, rest) = >>=-eq-done (lock_switch (decode c.mutex.kind) k v c) _ e in
    finish-Held v c x c' held (plain-Gets f k v c x small (rw decoded at got)) (done-injective rest)
