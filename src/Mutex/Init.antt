-- ===== src/Mutex/Init.antt =====
-- source/mutex_init.c: a mutex from its attributes; source/mutex_destroy.c.
use sync_perf.Base.{
  ℕ, ◌+◌, ◌*◌, ◌/◌, ◌%◌, ◌<◌, ◌≡◌, Bool, false, not, ◌&&◌, ◌||◌, ◌==◌, if◌then◌else◌, has_bit,
  set_bit, u32, arith,
}
use sync_perf.Mutex.Kinds.{enotsup, ebusy, robust_bit, inherit_bit, protect_bit, pshared_bit}
use sync_perf.Mutex.State.{PMutex, zeroed}

-- PTHREAD_MUTEXATTR_FLAG_ROBUST and PTHREAD_MUTEXATTR_FLAG_PSHARED, bits 30 and 31 of `mutexkind`.
abbrev pub attr_robust : ℕ → Bool
attr_robust mk = has_bit 0x4000_0000 mk

abbrev pub attr_pshared : ℕ → Bool
attr_pshared mk = has_bit 0x8000_0000 mk

-- The protocol, bits 28 and 29: 0 is PTHREAD_PRIO_NONE, 1 INHERIT, 2 PROTECT.
abbrev pub attr_protocol : ℕ → ℕ
attr_protocol mk = mk / 0x1000_0000 % 4

-- The ceiling, bits 12 to 23.
abbrev pub attr_ceiling : ℕ → ℕ
attr_ceiling mk = mk / 4096 % 4096

-- `mutexkind & ~PTHREAD_MUTEXATTR_FLAG_BITS`
abbrev pub attr_kind : ℕ → ℕ
attr_kind mk = mk % 4096 + mk / 0x100_0000 % 16 * 0x100_0000

-- The sanity check at the head: an unsupported combination.
abbrev pub not_supported : ℕ → Bool
not_supported mk =
    if attr_protocol mk == 0 then false else if attr_protocol mk == 1 then false else attr_robust mk

-- `__kind` after each of the statements that change it.
abbrev robust_kind : ℕ → ℕ
robust_kind mk = if attr_robust mk then set_bit robust_bit (attr_kind mk) else attr_kind mk

abbrev protocol_kind : ℕ → ℕ
protocol_kind mk =
    if attr_protocol mk == 1
    then set_bit inherit_bit (robust_kind mk)
    else if attr_protocol mk == 2
    then set_bit protect_bit (robust_kind mk)
    else robust_kind mk

abbrev new_kind : ℕ → ℕ
new_kind mk =
    if attr_pshared mk || attr_robust mk
    then set_bit pshared_bit (protocol_kind mk)
    else protocol_kind mk

abbrev new_lock : ℕ → ℕ
new_lock mk = if attr_protocol mk == 2 then u32 (attr_ceiling mk * 524288) else 0

-- The return value, and the mutex in the new entry (`old` before the call). `mk` is
-- `imutexattr->mutexkind`, 0 for the default attributes.
unfoldable pub mutex_init : PMutex → ℕ → ℕ × PMutex
mutex_init old mk =
    if not_supported mk
    then (enotsup, old)
    else (0, record zeroed { kind = new_kind mk; lock = new_lock mk })

-- `__kind = -1`
abbrev pub invalid_kind : ℕ
invalid_kind = 0xffff_ffff

unfoldable pub mutex_destroy : PMutex → ℕ × PMutex
mutex_destroy m =
    if not (has_bit robust_bit m.kind) && not (m.nusers == 0)
    then (ebusy, m)
    else (0, record m { kind = invalid_kind })

-- `mutexkind` with the given fields.
abbrev pub attributes : ℕ → ℕ → ℕ → ℕ → ℕ → ℕ
attributes ty ceiling protocol r s =
    ty + ceiling * 4096 + protocol * 0x1000_0000 + r * 0x4000_0000 + s * 0x8000_0000

record HasFields (mk ty ceiling protocol r s : ℕ) : Type 0 where
  kind_field : attr_kind mk ≡ ty
  ceiling_field : attr_ceiling mk ≡ ceiling
  protocol_field : attr_protocol mk ≡ protocol
  robust_field : mk / 0x4000_0000 % 2 ≡ r
  pshared_field : mk / 0x8000_0000 % 2 ≡ s

attributes-HasFields :
    (ty ceiling protocol r s : ℕ)
    → ty < 4
    → ceiling < 4096
    → protocol < 3
    → r < 2
    → s < 2
    → HasFields (attributes ty ceiling protocol r s) ty ceiling protocol r s
attributes-HasFields ty ceiling protocol r s h₁ h₂ h₃ h₄ h₅ = omega arith

-- `__kind` of an initialised mutex.
abbrev pub kind_of : ℕ → ℕ → ℕ → ℕ → ℕ
kind_of ty protocol r s =
    ty
    + r * 16
    + (if protocol == 1 then 32 else if protocol == 2 then 64 else 0)
    + (if (r == 1) || (s == 1) then 128 else 0)

init_of_fields :
    (old : PMutex) (mk ty ceiling protocol r s : ℕ)
    → HasFields mk ty ceiling protocol r s
    → ty < 4
    → ceiling < 4096
    → protocol < 3
    → r < 2
    → s < 2
    → (protocol ≡ 2 → r ≡ 0)
    → mutex_init old mk ≡ (
      0,
      record zeroed {
        kind = kind_of ty protocol r s;
        lock = if protocol == 2 then ceiling * 524288 else 0;
      },
    )
unfolding mutex_init
init_of_fields old mk ty ceiling protocol r s f h₁ h₂ h₃ h₄ h₅ h₆ = ground arith

-- For attributes with a type below 4, one of the protocols NONE, INHERIT and PROTECT, and no
-- robust PROTECT, the call succeeds and the new mutex is unused: its kind joins the type with one
-- bit for robust, inherit and protect each, and bit 7 where the attributes are robust or shared;
-- its lock word holds the ceiling under PROTECT and is 0 otherwise.
pub mutex_init_lem :
    (old : PMutex) (ty ceiling protocol r s : ℕ)
    → ty < 4
    → ceiling < 4096
    → protocol < 3
    → r < 2
    → s < 2
    → (protocol ≡ 2 → r ≡ 0)
    → mutex_init old (attributes ty ceiling protocol r s) ≡ (
      0,
      record zeroed {
        kind = kind_of ty protocol r s;
        lock = if protocol == 2 then ceiling * 524288 else 0;
      },
    )
mutex_init_lem old ty ceiling protocol r s h₁ h₂ h₃ h₄ h₅ h₆ =
    init_of_fields old _ ty ceiling protocol r s
      (attributes-HasFields ty ceiling protocol r s h₁ h₂ h₃ h₄ h₅) h₁ h₂ h₃ h₄ h₅ h₆
