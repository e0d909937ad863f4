-- ===== src/Manager/Entries.antt =====
-- source/recordentries.hh, with `alignup` of source/xdefines.h: the pool of entries. Each index is
-- handed out once, and an index is never given back.
use sync_perf.Base.{
  ℕ, zero, suc, ◌+◌, ◌-◌, ◌*◌, ◌/◌, ◌≤◌, ◌<◌, ◌≡◌, Option, none, some, ltb, if◌then◌else◌, arith,
  u32, u64,
}
use native.Mathlib.Decide.{dec_lt}

-- `(size + (alignto - 1)) & ~(alignto - 1)`, where `alignto` is a power of two.
unfoldable pub alignup : ℕ → ℕ → ℕ
alignup size alignto = u64 (size + (alignto - 1)) / alignto * alignto

abbrev pub page_size : ℕ
page_size = 4096

-- `RecordEntries`: `mapped` is the size in bytes that `initialize` asks `mmap` for.
pub record Entries : Type 0 where
  pub mapped : ℕ
  pub total : ℕ
  pub cur : ℕ

-- `sizeof(Entry)` comes from the compiler.
unfoldable pub initialize : ℕ → ℕ → Entries
unfolding alignup
initialize entry_size entries = record {
  mapped = alignup (u64 (entries * entry_size)) page_size;
  total = entries;
  cur = 0;
}

-- `int val`, as the `size_t` that it is compared as.
abbrev pub as_int : ℕ → ℕ
as_int n = if ltb (u32 n) 2147483648 then u32 n else u32 n + 18446744069414584320

-- The counter goes up also when the pool is exhausted; `none` is the `abort`.
unfoldable pub get_next_index : Entries → Option ℕ × Entries
get_next_index e =
    let val = as_int e.cur in
    (if ltb val e.total then some val else none, record e { cur = u64 (e.cur + 1) })

unfoldable pub cleanup : Entries → Entries
cleanup e = record e { cur = 0 }

unfoldable pub get_entries_numb : Entries → ℕ
get_entries_numb e = e.cur

-- The pool after `n` calls of `get_next_index`.
unfoldable pub draw : ℕ → Entries → Entries
unfolding get_next_index
draw zero e = e
draw (suc n) e = (get_next_index (draw n e)).1

draw_lem :
    (n : ℕ) (e : Entries)
    → e.cur + n < 18446744073709551616
    → draw n e ≡ record e { cur = e.cur + n }
unfolding draw
draw_lem zero e small = ground arith
draw_lem (suc n) e small = ground (arith, draw_lem n e)

alignup-le : (size : ℕ) → size + 4095 < 18446744073709551616 → size ≤ alignup size page_size
unfolding alignup
alignup-le size small = omega arith

entry_fits :
    (size n k : ℕ)
    → n * size + 4095 < 18446744073709551616
    → k < n
    → k * size + size ≤ alignup (u64 (n * size)) page_size
entry_fits size n k small below =
    let kept : u64 (n * size) ≡ n * size = omega (arith, small) in
    rw kept (grind (arith, alignup-le (n * size)))

-- In a pool that `initialize` made for `n` entries of `size` bytes, whose memory a `size_t` can
-- count, the call of `get_next_index` that follows `k` earlier ones gets the index `k` while `k` is
-- below `n`, and that entry lies inside the mapped memory; from `n` on the call aborts. `n` and `k`
-- are values of an `int`.
pub get_next_index-initialize :
    (size n k : ℕ)
    → n < 2147483648
    → k < 2147483648
    → n * size + 4095 < 18446744073709551616
    → ((get_next_index (draw k (initialize size n))).0 ≡ (if ltb k n then some k else none))
      × ((if ltb k n then k * size + size else 0) ≤ (initialize size n).mapped)
unfolding get_next_index initialize
get_next_index-initialize size n k entries calls memory =
    let drawn = draw_lem k (initialize size n) (omega arith) in
    (
      rw drawn (ground arith),
      elim (dec_lt k n) [
        | yes below ↦ ground (arith, entry_fits size n k memory below)
        | no beyond ↦ ground arith
      ],
    )
