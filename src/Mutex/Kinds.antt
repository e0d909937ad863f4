-- ===== src/Mutex/Kinds.antt =====
-- source/pthreadP.h: the values of `__kind`, the masks over it, and the error numbers.
use sync_perf.Base.{ℕ, ◌+◌, ◌*◌, ◌/◌, ◌%◌, ◌<◌, ◌≡◌, arith, Bool, true, false, ◌==◌, if◌then◌else◌}

abbrev pub eperm : ℕ
eperm = 1

abbrev pub esrch : ℕ
esrch = 3

abbrev pub eagain : ℕ
eagain = 11

abbrev pub enomem : ℕ
enomem = 12

abbrev pub ebusy : ℕ
ebusy = 16

abbrev pub einval : ℕ
einval = 22

abbrev pub edeadlk : ℕ
edeadlk = 35

abbrev pub enotsup : ℕ
enotsup = 95

abbrev pub eownerdead : ℕ
eownerdead = 130

abbrev pub enotrecoverable : ℕ
enotrecoverable = 131

-- PTHREAD_MUTEX_INCONSISTENT and PTHREAD_MUTEX_NOTRECOVERABLE, values of `__owner`.
abbrev pub inconsistent : ℕ
inconsistent = 0x7fff_ffff

abbrev pub notrecoverable : ℕ
notrecoverable = 0x7fff_fffe

-- FUTEX_WAITERS, FUTEX_OWNER_DIED and `& FUTEX_TID_MASK`, on a lock word of 32 bits.
abbrev pub futex_waiters : ℕ
futex_waiters = 0x8000_0000

abbrev pub futex_owner_died : ℕ
futex_owner_died = 0x4000_0000

abbrev pub tid_bits : ℕ → ℕ
tid_bits w = w % 0x4000_0000

-- PTHREAD_MUTEX_ROBUST_NORMAL_NP, PTHREAD_MUTEX_PRIO_INHERIT_NP, PTHREAD_MUTEX_PRIO_PROTECT_NP,
-- PTHREAD_MUTEX_PSHARED_BIT.
abbrev pub robust_bit : ℕ
robust_bit = 16

abbrev pub inherit_bit : ℕ
inherit_bit = 32

abbrev pub protect_bit : ℕ
protect_bit = 64

abbrev pub pshared_bit : ℕ
pshared_bit = 128

-- PTHREAD_MUTEX_TYPE and PTHREAD_MUTEX_TYPE_ELISION: `kind & 127` and `kind & (127 | 256)`.
abbrev pub mutex_type : ℕ → ℕ
mutex_type k = k % 128

abbrev pub mutex_type_elision : ℕ → ℕ
mutex_type_elision k = k % 128 + k / 256 % 2 * 256

-- `l & PTHREAD_MUTEX_PRIO_CEILING_MASK`, its complement, and the shift by 19.
abbrev pub ceiling_bits : ℕ → ℕ
ceiling_bits l = l / 524288 * 524288

abbrev pub below_ceiling : ℕ → ℕ
below_ceiling l = l % 524288

abbrev pub ceiling_of : ℕ → ℕ
ceiling_of l = l / 524288

-- PTHREAD_MUTEX_TIMED_NP (or NORMAL), RECURSIVE_NP, ERRORCHECK_NP, ADAPTIVE_NP: `kind & 3`.
pub data Flavor : Type 0 where
  timed recursive errorcheck adaptive : Flavor

unfoldable pub flavor : ℕ → Flavor
flavor k =
    if k % 4 == 0
    then timed
    else if k % 4 == 1
    then recursive
    else if k % 4 == 2
    then errorcheck
    else adaptive

-- The cases that the `switch` statements over a kind tell apart.
pub data Kind : Type 0 where
  plain : Flavor → Kind
  robust : Flavor → Kind
  inherit : (is_robust : Bool) → Flavor → Kind
  protect : Flavor → Kind
  elided : Kind
  elided_recursive : Kind
  other : Kind

-- The enumerators of source/pthreadP.h, read backwards.
unfoldable pub decode : ℕ → Kind
unfolding flavor
decode k =
    if k / 4 == 0
    then plain (flavor k)
    else if k / 4 == 4
    then robust (flavor k)
    else if k / 4 == 8
    then inherit false (flavor k)
    else if k / 4 == 12
    then inherit true (flavor k)
    else if k / 4 == 16
    then protect (flavor k)
    else if k == 256
    then elided
    else if k == 257
    then elided_recursive
    else other

-- Below 4 the kind is a plain one.
pub decode_plain : (k : ℕ) → k < 4 → (f : Flavor) × (decode k ≡ plain f)
unfolding decode
decode_plain k h = (flavor k, ground arith)
