-- ===== src/Mutex/Priority.antt =====
-- source/tpp.c: the priority ceilings that a thread holds, and the priority it runs at.
-- A priority argument of -1 is `none`. The lazily read limits __sched_fifo_min_prio and
-- __sched_fifo_max_prio hold the kernel's values wherever they are used.
use sync_perf.Base.{
  ℕ, zero, suc, ◌+◌, ◌-◌, Bool, true, false, ◌&&◌, ◌||◌, Option, none, some, ◌==◌, ltb, leb,
  if◌then◌else◌, inc32, dec32, update,
}
use sync_perf.Mutex.Kinds.{eagain, enomem}
use sync_perf.Mutex.State.{Tpp, Self, Kernel, Outcome, done, aborted}

-- `prio == -1 || (prio >= fifo_min_prio && prio <= fifo_max_prio)`
abbrev pub in_range : Kernel → Option ℕ → Bool
in_range k none = true
in_range k (some p) = leb k.priority_min p && leb p k.priority_max

-- The `for` loop: the highest priority below `lowest + n` that is still held, or `lowest - 1`.
unfoldable pub highest_below : (ℕ → ℕ) → ℕ → ℕ → ℕ
highest_below held lowest zero = lowest - 1
highest_below held lowest (suc n) = if held n == 0 then highest_below held lowest n else lowest + n

-- The counters and the highest ceiling, after a new one.
abbrev pub raise : ℕ → Option ℕ → Tpp → Option Tpp
raise lowest none t = some t
raise lowest (some p) t =
    if inc32 (t.priomap (p - lowest)) == 0
    then none
    else some (record {
      priomax = if ltb t.priomax p then p else t.priomax;
      priomap = update t.priomap (p - lowest) (inc32 (t.priomap (p - lowest)));
    })

-- `previous_prio > new_prio`
abbrev pub above : ℕ → Option ℕ → Bool
above p none = true
above p (some q) = ltb q p

-- The same after an old ceiling is given up; `priomax` is the value before the whole change.
abbrev pub lower : ℕ → ℕ → Option ℕ → Option ℕ → Tpp → Tpp
lower lowest priomax none new t = t
lower lowest priomax (some p) new t =
    let held = update t.priomap (p - lowest) (dec32 (t.priomap (p - lowest))) in
    if held (p - lowest) == 0 && priomax == p && above p new
    then record { priomax = highest_below held lowest (p - lowest); priomap = held }
    else record { priomax = t.priomax; priomap = held }

-- `sched_getparam` and `sched_getscheduler`, where the flags say that they were not called yet.
-- The Boolean says that both values are known.
unfoldable pub load_schedule : Kernel → Self → Bool × Self
load_schedule k s =
    let s₁ : Self × Bool = if s.sched_set then (s, true) else elim (k.getparam s.tid) [
      | none ↦ (s, false)
      | some p ↦ (record s { sched_priority = p; sched_set = true }, true)
    ] in
    let s₂ : Self × Bool = if s.policy_set then (s₁.0, true) else elim (k.getscheduler s.tid) [
      | none ↦ (s₁.0, false)
      | some p ↦ (record (s₁.0) { schedpolicy = p; policy_set = true }, true)
    ] in
    (s₁.1 && s₂.1, s₂.0)

-- From `lll_lock (self->lock, …)` on: the thread's priority follows the highest ceiling.
unfoldable pub apply_priority : Kernel → ℕ → ℕ → Self → ℕ × Self
unfolding load_schedule
apply_priority k priomax newpriomax s =
    let (known, s') = load_schedule k s in
    if known
    then if ltb s'.sched_priority newpriomax || ltb s'.sched_priority priomax
      then if k.setscheduler s'.tid s'.schedpolicy
          (if ltb s'.sched_priority newpriomax then newpriomax else s'.sched_priority)
        then (0, s')
        else (k.errno, s')
      else (0, s')
    else (k.errno, s')

abbrev set_tpp : Self → Tpp → Self
set_tpp s t = record s { tpp = some t }

unfoldable pub change_with : Kernel → Option ℕ → Option ℕ → Tpp → Self → ℕ × Self
unfolding apply_priority highest_below
change_with k previous new t s = elim (raise k.priority_min new t) [
  | none ↦ (eagain, set_tpp s t)
  | some t₁ ↦
      let t₂ = lower k.priority_min t.priomax previous new t₁ in
      if t.priomax == t₂.priomax
      then (0, set_tpp s t₂)
      else apply_priority k t.priomax t₂.priomax (set_tpp s t₂)
]

-- `tpp` of the thread, allocated at the first use.
abbrev pub own_tpp : Kernel → Self → Option Tpp
own_tpp k s = elim s.tpp [
  | some t ↦ some t
  | none ↦
      if k.calloc then some (record { priomax = k.priority_min - 1; priomap = λ _. 0 }) else none
]

-- `__pthread_tpp_change_priority`
unfoldable pub change_priority : Kernel → Option ℕ → Option ℕ → Self → Outcome (ℕ × Self)
unfolding change_with
change_priority k previous new s = elim (own_tpp k s) [
  | none ↦ done (enomem, s)
  | some t ↦
      if in_range k new && in_range k previous
      then done (change_with k previous new t s)
      else aborted
]

-- `__pthread_current_priority`; `none` is -1.
unfoldable pub current_priority : Kernel → Self → Option ℕ × Self
unfolding load_schedule
current_priority k s =
    let (known, s') = load_schedule k s in (if known then some s'.sched_priority else none, s')
