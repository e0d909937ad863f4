-- ===== src/Mutex/Lock/Plain.antt =====
-- source/mutex_lock.c, the cases of the mutexes that are neither robust nor have a priority
-- protocol.
use sync_perf.Base.{ℕ, zero, suc, ◌+◌, ◌-◌, ◌*◌, ◌/◌, ◌==◌, leb, if◌then◌else◌, inc32, min}
use sync_perf.Clock.{TimeInfo, get_tsc}
use sync_perf.Manager.Counters.{count_fail, add_futex_cycles}
use sync_perf.Mutex.Kinds.{eagain, edeadlk}
use sync_perf.Mutex.State.{
  Call, Outcome, done, ◌>>=◌, assert, Exit, leave, proceed, set_count, set_spins, set_lock,
}
use sync_perf.Mutex.LowLevel.{
  Variant, normal, cond_variant, taken, lll_mutex_lock, lll_mutex_trylock, interfere,
}

-- `++count`, which a count of all ones refuses.
abbrev pub bump_count : Call → Exit
bump_count c =
    if inc32 c.mutex.count == 0 then leave eagain c else leave 0 (set_count (c.mutex.count + 1) c)

abbrev pub unowned : Call → Outcome Call
unowned c = assert (c.mutex.owner == 0) c

unfoldable pub lock_recursive : Variant → Call → Outcome Exit
unfolding lll_mutex_lock
lock_recursive v c =
    if c.mutex.owner == c.self.tid
    then done (bump_count c)
    else do c₁ ← lll_mutex_lock v c; c₂ ← unowned c₁; done (proceed (set_count 1 c₂))

-- A call of `inc_fail_count` for the calling thread.
abbrev pub failed_once : Call → Call
failed_once c = record c { stat = count_fail c.stat }

-- `start_timestamp`, `inc_fail_count` and the count of the conflict.
abbrev pub start_waiting : Call → Call
start_waiting c = failed_once (record c { readings = c.readings + 1; conflicts = c.conflicts + 1 })

-- `add_futex_wait`, from the reading that the wait began with.
unfoldable pub stop_waiting : TimeInfo → Call → Call
unfolding get_tsc
stop_waiting start c = record c {
  stat = add_futex_cycles start (get_tsc (c.tsc c.readings)) c.stat;
  readings = c.readings + 1;
}

-- A contended `normal` lock is counted, and the time that it waits is measured.
abbrev pub lock_timed_contended : Call → Outcome Exit
lock_timed_contended c = do
  c₁ ← lll_mutex_lock normal (start_waiting c)
  c₂ ← unowned c₁
  done (proceed (stop_waiting (get_tsc (c.tsc c.readings)) c₂))

abbrev pub lock_timed_quiet : Variant → Call → Outcome Exit
lock_timed_quiet v c = do c₁ ← lll_mutex_lock v c; c₂ ← unowned c₁; done (proceed c₂)

-- `if (__lock == 2)`; with NO_INCR nothing is counted.
unfoldable pub lock_timed : Variant → Call → Outcome Exit
unfolding lll_mutex_lock get_tsc stop_waiting
lock_timed normal c =
    if c.mutex.lock == 2 then lock_timed_contended c else lock_timed_quiet normal c
lock_timed cond_variant c = lock_timed_quiet cond_variant c

unfoldable pub lock_errorcheck : Variant → Call → Outcome Exit
unfolding lock_timed
lock_errorcheck v c = if c.mutex.owner == c.self.tid then done (leave edeadlk c) else lock_timed v c

abbrev pub max_adaptive_count : ℕ
max_adaptive_count = 100

-- One count of a failed attempt in the `do` loop.
abbrev pub spin_failed : Variant → Call → Call
spin_failed normal c = failed_once c
spin_failed cond_variant c = c

-- The `do` loop, with `left` = max_cnt - cnt; the result holds `cnt` as the loop leaves it.
unfoldable pub spin : Variant → (left cnt : ℕ) → Call → Outcome (ℕ × Call)
unfolding lll_mutex_lock
spin v zero cnt c = do c₁ ← lll_mutex_lock v (spin_failed v c); done (cnt + 1, c₁)
spin v (suc left) cnt c =
    let (word, c₁) = lll_mutex_trylock v (interfere (spin_failed v c)) in
    let again = spin v left (cnt + 1) c₁ in if word == 0 then done (cnt + 1, c₁) else again

-- `__spins += (cnt - __spins) / 8`; the quotient of a negative number is cut towards 0.
abbrev pub adapt : ℕ → ℕ → ℕ
adapt cnt spins = if leb spins cnt then spins + (cnt - spins) / 8 else spins - (spins - cnt) / 8

abbrev pub max_cnt : ℕ → ℕ
max_cnt spins = min max_adaptive_count (spins * 2 + 10)

abbrev pub after_spin : ℕ × Call → Outcome Exit
after_spin (cnt, c) = do c₁ ← unowned (set_spins (adapt cnt c.mutex.spins) c); done (proceed c₁)

abbrev pub lock_adaptive_contended : Variant → Call → Outcome Exit
lock_adaptive_contended v c = spin v (max_cnt c.mutex.spins) 0 c >>= after_spin

abbrev pub lock_adaptive_free : Variant → Call → Outcome Exit
lock_adaptive_free v c = do c₁ ← unowned (set_lock (taken v) c); done (proceed c₁)

-- A failed compare-exchange leaves the state as it was.
unfoldable pub lock_adaptive : Variant → Call → Outcome Exit
unfolding spin
lock_adaptive v c =
    if c.mutex.lock == 0 then lock_adaptive_free v c else lock_adaptive_contended v c
