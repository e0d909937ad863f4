-- ===== src/Tracer/Totals.antt =====
-- The sums over the map of accessed addresses that `Fini` prints
-- (diagnosis_tool/src/sync_track.cpp).
use sync_perf.Base.{
  ℕ, ◌+◌, ◌<◌, ◌≡◌, refl, sym, ◌∙◌, arith, Bool, true, false, Option, none, some, List, [], ◌∷◌,
  All, length, keep, ◌==◌, if◌then◌else◌, u32, find, put, modify, nat_key, Distinct, put-Distinct,
  modify-Distinct, ==_iff,
}
use sync_perf.Tracer.Access.{
  MemTrack, MemMap, Access, touch, do_mem_access, found, replay, mem_access_count,
  shared_access_count,
}
use sync_perf.Tracer.Sharing.{threads_at, threads_at-known, any_other, summary, replay-summary}

-- The accesses counted at the addresses that pass a test.
weight : (ℕ → Bool) → MemMap → ℕ
weight p [] = 0
weight p ((a, e) ∷ m) = let rest = weight p m in if p a then u32 (rest + e.access_count) else rest

weight_small : (p : ℕ → Bool) (m : MemMap) → weight p m < 4294967296
unfolding weight
weight_small p [] = omega arith
weight_small p ((a, e) ∷ m) = ground (arith, weight_small p m)

weight-modify :
    (p : ℕ → Bool) (total_threads k i : ℕ) (m : MemMap) (e : MemTrack)
    → find k m ≡ some e
    → weight p (modify k (touch total_threads i) m)
      ≡ (if p k then u32 (weight p m + 1) else weight p m)
unfolding weight find modify
weight-modify p total_threads k i [] e h = cc
weight-modify p total_threads k i ((j, w) ∷ m) e h =
    ground (arith, weight-modify p total_threads k i m e, ==_iff j k)

weight-put :
    (p : ℕ → Bool) (k i : ℕ) (m : MemMap)
    → find k m ≡ none
    → weight p (put k (record { thread_id = i; access_count = 1 }) m)
      ≡ (if p k then u32 (weight p m + 1) else weight p m)
unfolding weight find put
weight-put p k i [] h = ground arith
weight-put p k i ((j, w) ∷ m) h = ground (arith, weight-put p k i m, ==_iff j k)

weight-found :
    (p : ℕ → Bool) (total_threads k i : ℕ) (m : MemMap) (o : Option MemTrack)
    → find k m ≡ o
    → weight p (found total_threads k i m o).0 ≡ (if p k then u32 (weight p m + 1) else weight p m)
weight-found p total_threads k i m none e = weight-put p k i m e
weight-found p total_threads k i m (some v) e = weight-modify p total_threads k i m v e

found-Distinct :
    (total_threads k i : ℕ) (m : MemMap) (o : Option MemTrack)
    → find k m ≡ o
    → Distinct m
    → Distinct (found total_threads k i m o).0
found-Distinct total_threads k i m none e d = put-Distinct k _ m e d
found-Distinct total_threads k i m (some v) e d = modify-Distinct k (touch total_threads i) m v e d

weight-replay :
    (p : ℕ → Bool) (total_threads : ℕ) (h : List Access) (m : MemMap)
    → weight p (replay total_threads h m) ≡ u32 (weight p m + length (keep (λ x. p x.addr) h))
unfolding replay do_mem_access
weight-replay p total_threads [] m = omega (arith, weight_small p m)
weight-replay p total_threads (x ∷ h) m = ground (
  arith,
  weight-replay p total_threads h (do_mem_access total_threads x.addr x.by m).0,
  weight-found p total_threads x.addr x.by m (find x.addr m) refl,
)

replay-Distinct :
    (total_threads : ℕ) (h : List Access) (m : MemMap)
    → Distinct m
    → Distinct (replay total_threads h m)
unfolding replay do_mem_access
replay-Distinct total_threads [] m d = d
replay-Distinct total_threads (x ∷ h) m d =
    replay-Distinct total_threads h (do_mem_access total_threads x.addr x.by m).0
      (found-Distinct total_threads x.addr x.by m (find x.addr m) refl d)

mem_access_count-weight : (m : MemMap) → mem_access_count m ≡ weight (λ _. true) m
unfolding mem_access_count weight
mem_access_count-weight [] = refl
mem_access_count-weight ((a, e) ∷ m) = ground (arith, mem_access_count-weight m)

-- The marks of the entries agree with a test of their addresses.
abbrev Marked : (total_threads : ℕ) → (ℕ → Bool) → MemMap → Type 0
Marked total_threads p m =
    (a : ℕ) (e : MemTrack) → find a m ≡ some e → (e.thread_id == total_threads) ≡ p a

shared_access_count-weight :
    (total_threads : ℕ) (p : ℕ → Bool) (m : MemMap)
    → Distinct m
    → Marked total_threads p m
    → shared_access_count total_threads m ≡ weight p m
unfolding shared_access_count weight find
shared_access_count-weight total_threads p [] d h = refl
shared_access_count-weight total_threads p ((a, e) ∷ m) d h = ground (
  arith,
  h a e (ground arith),
  shared_access_count-weight total_threads p m d.1
      (λ b f q. h b f (ground (arith, d.0, ==_iff a b))),
)

-- At least two threads.
abbrev several : List ℕ → Bool
several [] = false
several (i ∷ is) = any_other i is

-- Two different threads access the address in the course of `h`.
abbrev pub is_shared : List Access → Access → Bool
is_shared h x = several (threads_at x.addr h)

summary-several :
    (total_threads : ℕ) (is : List ℕ) (e : MemTrack)
    → All (λ j. j < total_threads) is
    → summary total_threads is ≡ some e
    → (e.thread_id == total_threads) ≡ several is
summary-several total_threads [] e h q = cc
summary-several total_threads (i ∷ is) e h q = ground arith

replay-Marked :
    (total_threads : ℕ) (h : List Access)
    → All (λ x. x.by < total_threads) h
    → Marked total_threads (λ a. several (threads_at a h)) (replay total_threads h [])
replay-Marked total_threads h known a e q =
    summary-several total_threads (threads_at a h) e (threads_at-known total_threads a h known)
      (sym (replay-summary total_threads a h known) ∙ q)

keep_every : (h : List Access) → length (keep (λ _. true) h) ≡ length h
keep_every [] = refl
keep_every (x ∷ h) = omega (arith, keep_every h)

-- The tool prints at its end the number of all accesses, and the number of the accesses to
-- addresses that two different threads accessed, those before the second thread came included;
-- both are modulo 2 ^ 32, and the threads are those of the tool.
pub fini_counts :
    (total_threads : ℕ) (h : List Access)
    → All (λ x. x.by < total_threads) h
    → (mem_access_count (replay total_threads h []) ≡ u32 (length h))
      × (shared_access_count total_threads (replay total_threads h [])
          ≡ u32 (length (keep (is_shared h) h)))
unfolding weight
fini_counts total_threads h known =
    let m = replay total_threads h [] in
    let p : ℕ → Bool = λ a. several (threads_at a h) in
    (
      omega (
        arith,
        mem_access_count-weight m,
        weight-replay (λ _. true) total_threads h [],
        keep_every h,
      ),
      omega (
        arith,
        shared_access_count-weight total_threads p m (replay-Distinct total_threads h [] tt)
            (replay-Marked total_threads h known),
        weight-replay p total_threads h [],
      ),
    )
