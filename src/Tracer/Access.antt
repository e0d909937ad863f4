-- ===== src/Tracer/Access.antt =====
-- The map of the accessed addresses (diagnosis_tool/src/sync_track.cpp, `doMemAccess`).
use sync_perf.Base.{
  ℕ, ◌+◌, Bool, true, false, not, Option, none, some, List, [], ◌∷◌, ◌==◌, if◌then◌else◌, inc32,
  u32, find, put, modify, nat_key,
}

-- `mem_track_t`; the thread is `total_threads` where at least two threads made an access.
pub record MemTrack : Type 0 where
  pub thread_id : ℕ
  pub access_count : ℕ

-- `memAccessMap`
abbrev pub MemMap : Type 0
MemMap = List (ℕ × MemTrack)

-- What becomes of the entry that was found.
abbrev pub touch : (total_threads thread_id : ℕ) → MemTrack → MemTrack
touch total_threads thread_id e = record {
  thread_id =
      if e.thread_id == total_threads
      then e.thread_id
      else if e.thread_id == thread_id
      then e.thread_id
      else total_threads;
  access_count = inc32 e.access_count;
}

-- `shared_access` for an entry that was found.
abbrev pub was_shared : (total_threads thread_id : ℕ) → MemTrack → Bool
was_shared total_threads thread_id e =
    if e.thread_id == total_threads then true else not (e.thread_id == thread_id)

abbrev pub found : (total_threads mem_addr thread_id : ℕ) → MemMap → Option MemTrack → MemMap × Bool
found total_threads mem_addr thread_id m (some e) =
    (modify mem_addr (touch total_threads thread_id) m, was_shared total_threads thread_id e)
found total_threads mem_addr thread_id m none =
    (put mem_addr (record { thread_id = thread_id; access_count = 1 }) m, false)

-- `doMemAccess`: the map after it, and whether the address is shared.
unfoldable pub do_mem_access : (total_threads mem_addr thread_id : ℕ) → MemMap → MemMap × Bool
do_mem_access total_threads mem_addr thread_id m =
    found total_threads mem_addr thread_id m (find mem_addr m)

-- One call of `doMemAccess`: the address, and the thread.
pub record Access : Type 0 where
  pub addr : ℕ
  pub by : ℕ

-- The map after a sequence of calls, the earliest first.
unfoldable pub replay : (total_threads : ℕ) → List Access → MemMap → MemMap
unfolding do_mem_access
replay total_threads [] m = m
replay total_threads (a ∷ h) m =
    replay total_threads h (do_mem_access total_threads a.addr a.by m).0

-- The two loops of `Fini` over the map: all accesses, and those of shared addresses.
unfoldable pub mem_access_count : MemMap → ℕ
mem_access_count [] = 0
mem_access_count ((a, e) ∷ m) = u32 (mem_access_count m + e.access_count)

unfoldable pub shared_access_count : (total_threads : ℕ) → MemMap → ℕ
shared_access_count total_threads [] = 0
shared_access_count total_threads ((a, e) ∷ m) =
    let rest = shared_access_count total_threads m in
    if e.thread_id == total_threads then u32 (rest + e.access_count) else rest
