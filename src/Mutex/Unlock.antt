-- ===== src/Mutex/Unlock.antt =====
-- source/mutex_unlock.c: `__pthread_mutex_unlock_usercnt` and the cases of
-- `__pthread_mutex_unlock_full`.
use sync_perf.Base.{
  ℕ, ◌+◌, ◌/◌, ◌%◌, Bool, true, false, not, ◌&&◌, ◌||◌, none, some, ◌==◌, ltb, if◌then◌else◌, dec32,
}
use sync_perf.Mutex.Kinds.{
  eperm, einval, enotrecoverable, inconsistent, notrecoverable, tid_bits, mutex_type, ceiling_bits,
  below_ceiling, ceiling_of, Flavor, timed, recursive, errorcheck, adaptive, flavor, Kind, robust,
  inherit, protect, decode,
}
use sync_perf.Mutex.State.{
  Kernel, Call, Outcome, done, aborted, undefined, ◌>>=◌, set_lock, set_count, set_owner,
  set_nusers, set_pending, dequeue,
}
use sync_perf.Mutex.LowLevel.{lll_unlock}
use sync_perf.Mutex.Priority.{change_priority}

-- `if (decr) --__nusers;`
abbrev pub leave_user : Bool → Call → Call
leave_user true c = set_nusers (dec32 c.mutex.nusers) c
leave_user false c = c

-- The label `normal`.
abbrev pub release_normal : Bool → Call → ℕ × Call
release_normal decr c = (0, lll_unlock (leave_user decr (set_owner 0 c)))

-- `--__count`
abbrev pub drop_count : Call → Call
drop_count c = set_count (dec32 c.mutex.count) c

abbrev unlock_recursive : Bool → Call → ℕ × Call
unlock_recursive decr c =
    if c.mutex.owner == c.self.tid
    then if dec32 c.mutex.count == 0 then release_normal decr (drop_count c) else (0, drop_count c)
    else (eperm, c)

abbrev unlock_errorcheck : Bool → Call → ℕ × Call
unlock_errorcheck decr c =
    if not (c.mutex.owner == c.self.tid) || (c.mutex.lock == 0)
    then (eperm, c)
    else release_normal decr c

-- The kinds that are not handed to the full version; `elision` is PTHREAD_MUTEX_ELISION_NP.
abbrev pub unlock_plain : Flavor → (elision : Bool) → Bool → Call → Outcome (ℕ × Call)
unlock_plain timed false decr c = done (release_normal decr c)
unlock_plain timed true decr c = undefined
unlock_plain recursive elision decr c = done (unlock_recursive decr c)
unlock_plain adaptive elision decr c = done (release_normal decr c)
unlock_plain errorcheck true decr c = aborted
unlock_plain errorcheck false decr c = done (unlock_errorcheck decr c)

-- The label `robust`; `lll_robust_unlock` clears the word and wakes a waiter if it said so.
abbrev release_robust : ℕ → Bool → Call → ℕ × Call
release_robust newowner decr c =
    let c₁ = leave_user decr (set_owner newowner (dequeue (set_pending true c))) in
    let c₂ = set_lock 0 c₁ in
    (
      0,
      set_pending false
          (if ltb c₁.mutex.lock 0x8000_0000 then c₂ else record c₂ { wakes = c₁.wakes + 1 }),
    )

abbrev unlock_robust_recursive : Bool → Call → ℕ × Call
unlock_robust_recursive decr c =
    if (tid_bits c.mutex.lock == c.self.tid) && (c.mutex.owner == inconsistent)
    then if dec32 c.mutex.count == 0
      then release_robust notrecoverable decr (drop_count c)
      else (enotrecoverable, drop_count c)
    else if c.mutex.owner == c.self.tid
    then if dec32 c.mutex.count == 0
      then release_robust 0 decr (drop_count c)
      else (0, drop_count c)
    else (eperm, c)

abbrev pub unlock_robust : Flavor → Bool → Call → ℕ × Call
unlock_robust recursive decr c = unlock_robust_recursive decr c
unlock_robust _ decr c =
    if not (tid_bits c.mutex.lock == c.self.tid) || (c.mutex.lock == 0)
    then (eperm, c)
    else release_robust (if c.mutex.owner == inconsistent then notrecoverable else 0) decr c

-- The word goes back to its ceiling, and a waiter is woken if the word said so.
abbrev pub release_word : Call → Call
release_word c =
    let c₁ = set_lock (ceiling_bits c.mutex.lock) c in
    if ltb 1 (below_ceiling c.mutex.lock) then record c₁ { wakes = c₁.wakes + 1 } else c₁

-- The label `pp`.
unfoldable pub release_protect : Kernel → Bool → Call → Outcome (ℕ × Call)
unfolding change_priority
release_protect k decr c = do
  let c₁ = leave_user decr (set_owner 0 c)
  r ← change_priority k (some (ceiling_of c₁.mutex.lock)) none c.self
  done (r.0, record (release_word c₁) { self = r.1 })

-- `case PTHREAD_MUTEX_PP_RECURSIVE_NP`
unfoldable pub unlock_protect_recursive : Kernel → Bool → Call → Outcome (ℕ × Call)
unfolding release_protect
unlock_protect_recursive k decr c =
    if c.mutex.owner == c.self.tid
    then if dec32 c.mutex.count == 0
      then release_protect k decr (drop_count c)
      else done (0, drop_count c)
    else done (eperm, c)

unfoldable pub unlock_protect : Flavor → Kernel → Bool → Call → Outcome (ℕ × Call)
unfolding unlock_protect_recursive release_protect
unlock_protect recursive k decr c = unlock_protect_recursive k decr c
unlock_protect errorcheck k decr c =
    if not (c.mutex.owner == c.self.tid) || (below_ceiling c.mutex.lock == 0)
    then done (eperm, c)
    else release_protect k decr c
unlock_protect timed k decr c = release_protect k decr c
unlock_protect adaptive k decr c = release_protect k decr c

-- The kinds with inheritance: their bodies are compiled out with the `break`, so that control
-- falls into `case PTHREAD_MUTEX_PP_RECURSIVE_NP`; the recursive kind counts down first.
unfoldable pub unlock_inherit :
    (is_robust : Bool) → Flavor → Kernel → Bool → Call → Outcome (ℕ × Call)
unfolding unlock_protect_recursive
unlock_inherit false recursive k decr c =
    if c.mutex.owner == c.self.tid
    then if dec32 c.mutex.count == 0
      then unlock_protect_recursive k decr (drop_count c)
      else done (0, drop_count c)
    else done (eperm, c)
unlock_inherit _ _ k decr c = unlock_protect_recursive k decr c

-- `__pthread_mutex_unlock_full`, at PTHREAD_MUTEX_TYPE.
unfoldable pub unlock_full : Kind → Kernel → Bool → Call → Outcome (ℕ × Call)
unfolding unlock_protect unlock_inherit
unlock_full (robust f) k decr c = done (unlock_robust f decr c)
unlock_full (inherit r f) k decr c = unlock_inherit r f k decr c
unlock_full (protect f) k decr c = unlock_protect f k decr c
unlock_full _ k decr c = done (einval, c)

-- `__pthread_mutex_unlock_usercnt`. The mask leaves bits 2 to 6.
unfoldable pub unlock_usercnt : Kernel → Bool → Call → Outcome (ℕ × Call)
unfolding unlock_full decode flavor
unlock_usercnt k decr c =
    if mutex_type c.mutex.kind / 4 == 0
    then unlock_plain (flavor c.mutex.kind) (c.mutex.kind / 256 % 2 == 1) decr c
    else unlock_full (decode (mutex_type c.mutex.kind)) k decr c

-- `pthread_mutex_unlock`, on the mutex of the entry.
unfoldable pub mutex_unlock : Kernel → Call → Outcome (ℕ × Call)
unfolding unlock_usercnt
mutex_unlock k c = unlock_usercnt k true c
