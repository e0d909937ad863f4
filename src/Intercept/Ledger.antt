-- ===== src/Intercept/Ledger.antt =====
-- Every access that the tables count is a call (source/mutex_lock.c, mutex_trylock.c,
-- mutex_unlock.c, mutex_init.c, mutex_destroy.c, report.h).
use sync_perf.Base.{
  ℕ, zero, suc, ◌+◌, ◌<◌, ◌≤◌, ◌≡◌, refl, ◌∙◌, arith, ◌&&◌, ◌==◌, if◌then◌else◌, u32, total,
}
use sync_perf.Manager.Counters.{max_sync_entries, max_threads, get_thread_mutex_data}
use sync_perf.Mutex.State.{Kernel}
use sync_perf.Report.Totals.{sum_threads}
use sync_perf.Report.Sums.{sum_threads-total}
use sync_perf.Intercept.World.{World, Caller}
use sync_perf.Intercept.Linking.{IsLinked}
use sync_perf.Intercept.Steps.{
  Step, lock, trylock, unlock, init, destroy, sleep, wake, Reach, start, next, IsFresh,
  Reach-IsLinked,
}
use sync_perf.Intercept.Sleeps.{begin_wait-SameAccesses, end_wait-SameAccesses}
use sync_perf.Intercept.Accesses.{accesses, leads_to, OneMore, SameAccesses}
use sync_perf.Intercept.Effects.{
  lock-OneMore, trylock-OneMore, unlock-SameAccesses, init-SameAccesses, destroy-SameAccesses,
}

-- One call of the thread `t`, when the mutex it was made on points to the entry `m` behind it.
abbrev pub call_on_entry : Caller → (a : ℕ) → World → (m t : ℕ) → ℕ
call_on_entry who a w m t = if leads_to m (w.users a).pointer && (who.index == t) then 1 else 0

-- The locks and trylocks among the calls, each charged to the thread that made it and to the
-- entry that its mutex pointed to at the time.
abbrev pub charge : {k : Kernel} {w w' : World} → Step k w w' → (m t : ℕ) → ℕ
charge {w'} (lock who a code e) m t = call_on_entry who a w' m t
charge {w'} (trylock who a code e) m t = call_on_entry who a w' m t
charge (unlock who a code e) m t = 0
charge (init a kind code e) m t = 0
charge (destroy a code e) m t = 0
charge (sleep who a code e) m t = 0
charge (wake who waits a code e) m t = 0

unfoldable pub calls : {k : Kernel} {w w' : World} → Reach k w w' → (m t : ℕ) → ℕ
calls start m t = 0
calls (next before step) m t = calls before m t + charge step m t

-- The caller's index is within the table.
abbrev pub Seated : {k : Kernel} {w w' : World} → Step k w w' → Type 0
Seated (lock who a code e) = who.index < max_threads
Seated (trylock who a code e) = who.index < max_threads
Seated (unlock who a code e) = who.index < max_threads
Seated (init a kind code e) = Unit
Seated (destroy a code e) = Unit
Seated (sleep who a code e) = who.index < max_threads
Seated (wake who waits a code e) = who.index < max_threads

-- No call had an index past the table.
unfoldable pub Within : {k : Kernel} {w w' : World} → Reach k w w' → Type 0
Within start = Unit
Within (next before step) = Within before × Seated step

-- The tables agree with the calls in `n`.
abbrev Agree : World → (n : ℕ → ℕ → ℕ) → Type 0
Agree w n = (m t : ℕ) → m < max_sync_entries → t < max_threads → accesses w m t ≡ u32 (n m t)

counted-Agree :
    (who : Caller) (a : ℕ) (w w' : World) (n : ℕ → ℕ → ℕ)
    → OneMore who a w w'
    → Agree w n
    → Agree w' (λ m t. n m t + call_on_entry who a w' m t)
counted-Agree who a w w' n one before m t hm ht = ground (arith, one m t hm ht, before m t hm ht)

same-Agree :
    (w w' : World) (n : ℕ → ℕ → ℕ) → SameAccesses w w' → Agree w n → Agree w' (λ m t. n m t + 0)
same-Agree w w' n same before m t hm ht = ground (arith, same m t hm ht, before m t hm ht)

charge-Agree :
    (k : Kernel) (w w' : World) (s : Step k w w') (n : ℕ → ℕ → ℕ)
    → IsLinked w
    → Seated s
    → w'.pool.cur ≤ max_sync_entries
    → Agree w n
    → Agree w' (λ m t. n m t + charge s m t)
charge-Agree k w w' (lock who a code e) n p seat room before =
    counted-Agree who a w w' n (lock-OneMore k who a code w w' p e room seat) before
charge-Agree k w w' (trylock who a code e) n p seat room before =
    counted-Agree who a w w' n (trylock-OneMore k who a code w w' p e room seat) before
charge-Agree k w w' (unlock who a code e) n p seat room before =
    same-Agree w w' n (unlock-SameAccesses k who a code w w' p e room seat) before
charge-Agree k w w' (init a kind code e) n p seat room before =
    same-Agree w w' n (init-SameAccesses a kind code w w' e) before
charge-Agree k w w' (destroy a code e) n p seat room before =
    same-Agree w w' n (destroy-SameAccesses a code w w' e) before
charge-Agree k w w' (sleep who a code e) n p seat room before =
    same-Agree w w' n (begin_wait-SameAccesses k who a code w w' p e room seat) before
charge-Agree k w w' (wake who waits a code e) n p seat room before =
    same-Agree w w' n (end_wait-SameAccesses k who waits a code w w' p e room seat) before

-- Every count of the table is zero.
abbrev pub Clear : World → Type 0
Clear w = (m t : ℕ) → m < max_sync_entries → t < max_threads → accesses w m t ≡ 0

calls-Agree :
    (k : Kernel) (w w' : World) (r : Reach k w w')
    → IsFresh w
    → Within r
    → Clear w
    → Agree w' (calls r)
unfolding Within calls
calls-Agree k w _ start f h clear = clear
calls-Agree k w w₂ (next {w₁} before step) f (h, seat) clear =
    let linked = Reach-IsLinked k w w₂ f (next before step) in
    charge-Agree k w₁ w₂ step (calls before) (Reach-IsLinked k w w₁ f before) seat
      (omega (arith, linked.room, linked.table)) (calls-Agree k w w₁ before f h clear)

-- Numbers that agree modulo 2 ^ 32 have sums that do.
total_agree :
    {A : Type 0} (weight : A → ℕ) (fam : ℕ → A) (n : ℕ → ℕ) (bound : ℕ)
    → ((t : ℕ) → t < bound → weight (fam t) ≡ u32 (n t))
    → u32 (total weight bound fam) ≡ u32 (total (λ x. x) bound n)
unfolding total
total_agree weight fam n zero h = refl
total_agree weight fam n (suc bound) h =
    let earlier = total_agree weight fam n bound (λ t below. h t (omega arith)) in
    ground (arith, earlier, h bound (omega arith))

-- The access count that the report sums up for an entry is the number of calls of lock and
-- trylock, modulo 2 ^ 32, that the threads of the program made on a mutex that pointed to this
-- entry: after any sequence of calls that return, in any order and of any outcome of a trylock,
-- from a state in which no mutex has an entry, every count is zero, and the pool is unused and no
-- larger than the tables. The condition is that the callers' indices stay within the tables.
pub sum_threads-calls :
    (k : Kernel) (w w' : World) (r : Reach k w w') (m threads : ℕ)
    → IsFresh w
    → Clear w
    → Within r
    → m < max_sync_entries
    → threads ≤ max_threads
    → (sum_threads w'.counters m threads).access_count
      ≡ u32 (total (λ n. n) threads (λ t. calls r m t))
sum_threads-calls k w w' r m threads f clear h hm ht =
    (sum_threads-total w'.counters m threads).0
    ∙ total_agree (λ s. s.access_count) (get_thread_mutex_data w'.counters m) (calls r m) threads
        (λ t below. calls-Agree k w w' r f h clear m t hm (omega arith))
