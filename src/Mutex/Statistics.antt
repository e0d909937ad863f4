-- ===== src/Mutex/Statistics.antt =====
-- What a lock call counts and measures (source/mutex_lock.c).
use sync_perf.Base.{
  ℕ, ◌+◌, ◌≤◌, ◌≡◌, sym, ap, ◌∙◌, arith, Bool, true, false, ◌==◌, if◌then◌else◌, inc32, u32, eq→==,
  ne→==,
}
use native.Mathlib.Decide.{ℕ_discrete}
use mathlib.Core.Path.{subst}
use sync_perf.Clock.{get_tsc, get_elapsed_cycle}
use sync_perf.Manager.Counters.{ThreadMutex}
use sync_perf.Mutex.Kinds.{timed, plain, decode}
use sync_perf.Mutex.State.{
  Kernel, Call, done, ◌>>=◌, >>=-eq-done, done-injective, Exit, leave, proceed,
}
use sync_perf.Mutex.LowLevel.{normal, lll_mutex_lock}
use sync_perf.Mutex.Lock.Plain.{
  lock_timed, lock_timed_contended, lock_timed_quiet, start_waiting, stop_waiting, unowned,
}
use sync_perf.Mutex.Lock.{mutex_lock, lock_switch, lock_finish}
use sync_perf.Mutex.Waits.{Waited, lll_mutex_lock-Waited}

-- The cycles between the next two readings of the counter.
abbrev pub next_interval : Call → ℕ
next_interval c = get_elapsed_cycle (get_tsc (c.tsc c.readings)) (get_tsc (c.tsc (c.readings + 1)))

-- The statistics of one acquisition, contended or not.
pub record Accounts (contended : Bool) (c c' : Call) : Type 0 where
  pub conflicts : c'.conflicts ≡ c.conflicts + (if contended then 1 else 0)
  pub failures :
      c'.stat.fail_count ≡ (if contended then inc32 c.stat.fail_count else c.stat.fail_count)
  pub waited : c'.stat.futex_wait ≡ c.stat.futex_wait + (if contended then next_interval c else 0)
  pub accesses : c'.stat.access_count ≡ c.stat.access_count

abbrev after : Exit → Call
after (proceed c) = c
after (leave code c) = c

unowned_keeps : (c c' : Call) → unowned c ≡ done c' → c' ≡ c
unowned_keeps c c' e = ground arith

quiet_end : (c c₁ : Call) → Waited c c₁ → Accounts false c c₁
quiet_end c c₁ w = record {
  conflicts = w.same_conflicts ∙ omega arith;
  failures = ap (λ (t : ThreadMutex). t.fail_count) w.same_stat;
  waited = ap (λ (t : ThreadMutex). t.futex_wait) w.same_stat ∙ omega arith;
  accesses = ap (λ (t : ThreadMutex). t.access_count) w.same_stat;
}

contended_end :
    (c c₁ : Call)
    → Waited (start_waiting c) c₁
    → Accounts true c (stop_waiting (get_tsc (c.tsc c.readings)) c₁)
unfolding stop_waiting
contended_end c c₁ w =
    let now : c₁.tsc c₁.readings ≡ c.tsc (c.readings + 1) =
      ap (λ f. f c₁.readings) w.same_tsc ∙ ap c.tsc w.same_readings in
    record {
      conflicts = w.same_conflicts;
      failures = ap (λ (t : ThreadMutex). t.fail_count) w.same_stat;
      waited =
          ap
            (λ t. t + get_elapsed_cycle (get_tsc (c.tsc c.readings)) (get_tsc (c₁.tsc c₁.readings)))
            (ap (λ (t : ThreadMutex). t.futex_wait) w.same_stat)
          ∙ ap (λ t. c.stat.futex_wait + get_elapsed_cycle (get_tsc (c.tsc c.readings)) (get_tsc t))
              now;
      accesses = ap (λ (t : ThreadMutex). t.access_count) w.same_stat;
    }

quiet-Accounts :
    (c : Call) (x : Exit) → lock_timed_quiet normal c ≡ done x → Accounts false c (after x)
quiet-Accounts c x e =
    let (c₁, got, rest) =
      >>=-eq-done (lll_mutex_lock normal c) (λ c₁. unowned c₁ >>= λ c₂. done (proceed c₂)) e in
    let (c₂, checked, same) = >>=-eq-done (unowned c₁) (λ c₂. done (proceed c₂)) rest in
    let end = quiet_end c c₁ (lll_mutex_lock-Waited normal c c₁ got) in
    subst (λ y. Accounts false c (after y)) (done-injective same)
      (subst (Accounts false c) (sym (unowned_keeps c₁ c₂ checked)) end)

contended-Accounts :
    (c : Call) (x : Exit) → lock_timed_contended c ≡ done x → Accounts true c (after x)
contended-Accounts c x e =
    let start = get_tsc (c.tsc c.readings) in
    let (c₁, got, rest) =
      >>=-eq-done (lll_mutex_lock normal (start_waiting c))
        (λ c₁. unowned c₁ >>= λ c₂. done (proceed (stop_waiting start c₂))) e in
    let (c₂, checked, same) =
      >>=-eq-done (unowned c₁) (λ c₂. done (proceed (stop_waiting start c₂))) rest in
    let end = contended_end c c₁ (lll_mutex_lock-Waited normal (start_waiting c) c₁ got) in
    subst (λ y. Accounts true c (after y)) (done-injective same)
      (subst (λ d. Accounts true c (stop_waiting start d)) (sym (unowned_keeps c₁ c₂ checked)) end)

timed-Accounts :
    (c : Call) (x : Exit) → lock_timed normal c ≡ done x → Accounts (c.mutex.lock == 2) c (after x)
unfolding lock_timed
timed-Accounts c x e = elim (ℕ_discrete c.mutex.lock 2) [
  | yes busy ↦ rw (eq→== _ _ busy) (contended-Accounts c x (rw (eq→== _ _ busy) at e))
  | no quiet ↦ rw (ne→== _ _ quiet) (quiet-Accounts c x (rw (ne→== _ _ quiet) at e))
]

finish-Accounts :
    (b : Bool) (c : Call) (x : Exit) (code : ℕ) (c' : Call)
    → Accounts b c (after x)
    → lock_finish normal x ≡ (code, c')
    → Accounts b c c'
finish-Accounts b c (proceed d) code c' a e =
    subst (λ (r : ℕ × Call). Accounts b c r.1) e
      (record {
        conflicts = a.conflicts;
        failures = a.failures;
        waited = a.waited;
        accesses = a.accesses;
      })
finish-Accounts b c (leave code' d) code c' a e = subst (λ (r : ℕ × Call). Accounts b c r.1) e a

-- A lock of a mutex of the default kind that returns counts a conflict and a failure, and adds the
-- cycles from before the wait to after it to the waiting time, exactly if the lock word said that
-- there are waiters; else it changes none of the three. It never changes the access count, which
-- the prologue counts.
pub lock_statistics :
    (k : Kernel) (c c' : Call) (code : ℕ)
    → c.mutex.kind ≡ 0
    → mutex_lock k normal c ≡ done (code, c')
    → Accounts (c.mutex.lock == 2) c c'
unfolding mutex_lock lock_switch
lock_statistics k c c' code kind e =
    let decoded : decode c.mutex.kind ≡ plain timed = ap decode kind in
    let (x, got, rest) =
      >>=-eq-done (lock_switch (decode c.mutex.kind) k normal c) (λ x. done (lock_finish normal x))
        e in
    let ran : lock_timed normal c ≡ done x = rw decoded at got in
    finish-Accounts (c.mutex.lock == 2) c x code c' (timed-Accounts c x ran) (done-injective rest)

-- A number of failed attempts, at least one and at most 101, was added to the failures.
abbrev pub FailedAttempts : Call → Call → Type 0
FailedAttempts c c' =
    (n : ℕ) × (1 ≤ n) × (n ≤ 101) × (c'.stat.fail_count ≡ u32 (c.stat.fail_count + n))
