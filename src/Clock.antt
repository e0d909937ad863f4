-- ===== src/Clock.antt =====
-- source/finetime.c: time-stamp readings and the cycles between two of them.
use sync_perf.Base.{ℕ, ◌+◌, ◌-◌, ◌*◌, ◌/◌, ◌%◌, ◌^◌, ◌≤◌, ◌<◌, ◌≡◌, arith, ltb, if◌then◌else◌, u64}

-- `struct timeinfo`
pub record TimeInfo : Type 0 where
  pub low : ℕ
  pub high : ℕ

-- The two halves that rdtsc leaves in edx:eax, at the 64-bit counter value `t`.
unfoldable pub get_tsc : ℕ → TimeInfo
get_tsc t = record { low = t % 2 ^ 32; high = t / 2 ^ 32 % 2 ^ 32 }

abbrev pub tsc_max : ℕ
tsc_max = 0xffff_ffff

-- `low | (high << 32)`; the halves do not overlap, since `low` is below 2 ^ 32.
unfoldable pub counter : TimeInfo → ℕ
counter ti = u64 (ti.low + ti.high * 2 ^ 32)

unfoldable pub get_elapsed_cycle : TimeInfo → TimeInfo → ℕ
unfolding counter
get_elapsed_cycle start stop =
    if ltb stop.high start.high
    then u64 (u64 (tsc_max + 2 ^ 64 - counter start) + counter stop)
    else u64 (counter stop + 2 ^ 64 - counter start)

counter-get_tsc : (t : ℕ) → t < 2 ^ 64 → counter (get_tsc t) ≡ t
unfolding counter get_tsc
counter-get_tsc t h = omega arith

-- While the time-stamp counter does not run backwards, the elapsed cycles are the difference of
-- the two readings.
pub elapsed_exact :
    (s t : ℕ) → s ≤ t → t < 2 ^ 64 → get_elapsed_cycle (get_tsc s) (get_tsc t) ≡ t - s
unfolding get_elapsed_cycle get_tsc
elapsed_exact s t h k = ground arith

-- When the upper half of the counter has gone down, the result exceeds the true distance modulo
-- 2 ^ 64 by 2 ^ 32 - 1 (modulo 2 ^ 64): the code adds TSC_MAX, the largest value of one half only.
pub elapsed_after_wrap :
    (s t : ℕ)
    → s < 2 ^ 64
    → t / 2 ^ 32 < s / 2 ^ 32
    → get_elapsed_cycle (get_tsc s) (get_tsc t)
      ≡ ((t + 2 ^ 64 - s) % 2 ^ 64 + (2 ^ 32 - 1)) % 2 ^ 64
unfolding get_elapsed_cycle get_tsc
elapsed_after_wrap s t h k = ground arith
