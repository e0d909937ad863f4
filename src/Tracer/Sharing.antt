-- ===== src/Tracer/Sharing.antt =====
-- What the map of accessed addresses says after any sequence of accesses
-- (diagnosis_tool/src/sync_track.cpp, `doMemAccess` and the loops of `Fini`).
use sync_perf.Base.{
  ℕ, ◌+◌, ◌≤◌, ◌<◌, ◌≡◌, refl, arith, Bool, false, not, ◌||◌, Option, none, some, List, [], ◌∷◌,
  All, length, ◌==◌, if◌then◌else◌, inc32, u32, find, nat_key, find-put, find-modify,
}
use sync_perf.Tracer.Access.{MemTrack, MemMap, Access, touch, do_mem_access, found, replay}

-- The threads that accessed an address, in the order of their accesses.
abbrev pub threads_at : ℕ → List Access → List ℕ
threads_at a [] = []
threads_at a (x ∷ h) = let rest = threads_at a h in if x.addr == a then x.by ∷ rest else rest

abbrev pub any_other : ℕ → List ℕ → Bool
any_other i [] = false
any_other i (j ∷ is) = not (j == i) || any_other i is

-- The entry that the accesses to an address deserve: their number, and the one thread that made
-- them, or `total_threads` if there are two.
abbrev pub summary : (total_threads : ℕ) → List ℕ → Option MemTrack
summary total_threads [] = none
summary total_threads (i ∷ is) = some (record {
  thread_id = if any_other i is then total_threads else i;
  access_count = u32 (length is + 1);
})

-- One more access, seen at its address.
abbrev visit : (total_threads thread_id : ℕ) → Option MemTrack → MemTrack
visit total_threads thread_id none = record { thread_id = thread_id; access_count = 1 }
visit total_threads thread_id (some e) = touch total_threads thread_id e

abbrev visits : (total_threads : ℕ) → List ℕ → Option MemTrack → Option MemTrack
visits total_threads [] o = o
visits total_threads (i ∷ is) o = visits total_threads is (some (visit total_threads i o))

visits_entry :
    (total_threads i n : ℕ) (is : List ℕ)
    → All (λ j. j < total_threads) is
    → i ≤ total_threads
    → n < 4294967296
    → visits total_threads is (some (record { thread_id = i; access_count = n }))
      ≡ some (record {
        thread_id = if any_other i is then total_threads else i;
        access_count = u32 (n + length is);
      })
visits_entry total_threads i n [] h b c = ground arith
visits_entry total_threads i n (j ∷ is) h b c = ground (
  arith,
  visits_entry total_threads i (inc32 n) is,
  visits_entry total_threads total_threads (inc32 n) is,
)

find-found :
    (total_threads a k i : ℕ) (m : MemMap) (o : Option MemTrack)
    → find k m ≡ o
    → find a (found total_threads k i m o).0
      ≡ (if k == a then some (visit total_threads i o) else find a m)
find-found total_threads a k i m none e = find-put a k _ m
find-found total_threads a k i m (some v) e = find-modify a k (touch total_threads i) m v e

find-do_mem_access :
    (total_threads a k i : ℕ) (m : MemMap)
    → find a (do_mem_access total_threads k i m).0
      ≡ (if k == a then some (visit total_threads i (find a m)) else find a m)
unfolding do_mem_access
find-do_mem_access total_threads a k i m =
    ground (arith, find-found total_threads a k i m (find k m) refl)

find-replay :
    (total_threads a : ℕ) (h : List Access) (m : MemMap)
    → find a (replay total_threads h m) ≡ visits total_threads (threads_at a h) (find a m)
unfolding replay
find-replay total_threads a [] m = refl
find-replay total_threads a (x ∷ h) m = ground (
  arith,
  find-replay total_threads a h (do_mem_access total_threads x.addr x.by m).0,
  find-do_mem_access total_threads a x.addr x.by m,
)

visits-summary :
    (total_threads : ℕ) (is : List ℕ)
    → All (λ j. j < total_threads) is
    → visits total_threads is none ≡ summary total_threads is
visits-summary total_threads [] h = refl
visits-summary total_threads (i ∷ is) h = ground (arith, visits_entry total_threads i 1 is)

pub threads_at-known :
    (total_threads a : ℕ) (h : List Access)
    → All (λ x. x.by < total_threads) h
    → All (λ j. j < total_threads) (threads_at a h)
threads_at-known total_threads a [] known = tt
threads_at-known total_threads a (x ∷ h) known = ground (arith, threads_at-known total_threads a h)

-- After any sequence of accesses by threads of the tool, the map holds for each address the number
-- of its accesses, modulo 2 ^ 32, with the thread that made them all, or the mark of a shared
-- address if two threads did; an address with no access has no entry.
pub replay-summary :
    (total_threads a : ℕ) (h : List Access)
    → All (λ x. x.by < total_threads) h
    → find a (replay total_threads h []) ≡ summary total_threads (threads_at a h)
unfolding find
replay-summary total_threads a h known = ground (
  arith,
  find-replay total_threads a h [],
  visits-summary total_threads (threads_at a h),
  threads_at-known total_threads a h known,
)

found-shared :
    (total_threads a i : ℕ) (m : MemMap) (is : List ℕ)
    → All (λ j. j < total_threads) is
    → i < total_threads
    → (found total_threads a i m (summary total_threads is)).1 ≡ any_other i is
found-shared total_threads a i m [] h b = refl
found-shared total_threads a i m (j ∷ is) h b = ground arith

-- `doMemAccess` says that the address is shared exactly if some thread other than the caller made
-- an access to it before.
pub do_mem_access-shared :
    (total_threads a i : ℕ) (h : List Access)
    → All (λ x. x.by < total_threads) h
    → i < total_threads
    → (do_mem_access total_threads a i (replay total_threads h [])).1 ≡ any_other i (threads_at a h)
unfolding do_mem_access
do_mem_access-shared total_threads a i h known b =
    rw (replay-summary total_threads a h known) (
      found-shared total_threads a i _ (threads_at a h) (threads_at-known total_threads a h known)
        b)
