-- ===== src/Manager/Install/Safety.antt =====
-- What the installation of an entry promises, whatever the interleaving of the threads.
use sync_perf.Base.{ℕ, ◌+◌, ◌≤◌, ◌<◌, ◌≡◌, some, arith, total, total-update, total-le}
use sync_perf.Manager.Install.Protocol.{
  Pc, checking, working, aborted, Shared, Move, unset, alloc, exhausted, System, act, Reach, start,
  later, may_draw,
}
use sync_perf.Manager.Install.Invariant.{Reach-Inv}

-- Two threads that have passed `get_mutex` work on the same entry. It is the entry in the word,
-- it was drawn from the pool for this mutex (its index is at least `first` and below the counter),
-- and it lies in the pool.
pub agreement :
    {n first size : ℕ} {s : System}
    → Reach n first size s
    → (i j k l : ℕ) → s.pc i ≡ working k
    → s.pc j ≡ working l
    → (k ≡ l) × (s.mem.word ≡ some k) × (first ≤ k) × (k < s.mem.cur) × (k < s.mem.total)
agreement {first} {s} r i j k l ei ej =
    let inv = Reach-Inv r in
    let at_i : s.mem.word ≡ some k = ground (arith, inv.fresh i) in
    let at_j : s.mem.word ≡ some l = ground (arith, inv.fresh j) in
    let (old, drawn, room) = inv.drawn k at_i in (ground arith, at_i, old, drawn, room)

-- The assertion of `get_mutex` never fails: a thread aborts only after a call that found the pool
-- exhausted.
pub get_mutex_never_fails :
    {n first size : ℕ} {s : System}
    → Reach n first size s
    → (i : ℕ) → s.pc i ≡ aborted
    → s.mem.total < s.mem.cur
get_mutex_never_fails {s} r i e = let inv = Reach-Inv r in ground (arith, inv.fresh i)

Move-draws :
    {m m' : Shared} {p p' : Pc} → Move m p m' p' → m'.cur + may_draw p' ≤ m.cur + may_draw p
Move-draws (unset g) = omega arith
Move-draws (alloc g) = omega arith
Move-draws (exhausted g) = omega arith
Move-draws _ = omega arith

Reach-draws :
    {n first size : ℕ} {s : System}
    → Reach n first size s
    → s.mem.cur + total may_draw n s.pc ≤ first + n
Reach-draws {n} {first} start =
    omega (arith, total-le may_draw (λ p. ground arith) n (λ _. checking))
Reach-draws {n} (later {s} r (act i {next = p} mv lt)) =
    omega (arith, Reach-draws r, Move-draws mv, total-update may_draw n s.pc i p lt)

-- `n` threads that race to install the entry of one mutex draw at most `n` entries of the pool.
pub draws_at_most : {n first size : ℕ} {s : System} → Reach n first size s → s.mem.cur ≤ first + n
draws_at_most r = omega (arith, Reach-draws r)
