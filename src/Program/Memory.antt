-- ===== src/Program/Memory.antt =====
-- source/mm.hh: memory from the system. The system's `mmap` is a parameter.
use sync_perf.Base.{ℕ, ◌≡◌, arith, Bool, true, false, Option, none, some}
use sync_perf.Threads.Table.{Result, ok, aborted}

-- The arguments of `mmap`. A file descriptor of -1 is `none`, and `anonymous`, `fixed` and
-- `noreserve` are the flags of that name; a mapping that is not shared is private.
pub record MapRequest : Type 0 where
  pub startaddr : ℕ
  pub sz : ℕ
  pub readable : Bool
  pub writable : Bool
  pub is_shared : Bool
  pub anonymous : Bool
  pub fixed : Bool
  pub noreserve : Bool
  pub fd : Option ℕ

-- A mapping that fails ends the program.
unfoldable pub allocate :
    {M : Type 0} (mmap : MapRequest → Option M)
    → (is_shared : Bool) (sz : ℕ) (fd : Option ℕ) (startaddr : Option ℕ) → Result M
allocate mmap is_shared sz fd startaddr =
    let mapped = mmap (record {
      startaddr = elim startaddr [ none ↦ 0 | some a ↦ a ];
      sz = sz;
      readable = true;
      writable = true;
      is_shared = is_shared;
      anonymous = elim fd [ none ↦ true | some _ ↦ false ];
      fixed = elim startaddr [ none ↦ false | some _ ↦ true ];
      noreserve = true;
      fd = fd;
    }) in
    elim mapped [ none ↦ aborted | some m ↦ ok m ]

-- `mmapAllocatePrivate`, which its callers give only a size.
unfoldable pub mmap_allocate_private :
    {M : Type 0} (mmap : MapRequest → Option M) (sz : ℕ) → Result M
unfolding allocate
mmap_allocate_private mmap sz = allocate mmap false sz none none

-- The request that `mmap_allocate_private` makes.
abbrev pub private_request : ℕ → MapRequest
private_request sz = record {
  startaddr = 0;
  sz = sz;
  readable = true;
  writable = true;
  is_shared = false;
  anonymous = true;
  fixed = false;
  noreserve = true;
  fd = none;
}

pub mmap_allocate_private-eq-ok :
    {M : Type 0} (mmap : MapRequest → Option M) (sz : ℕ) (m : M)
    → mmap_allocate_private mmap sz ≡ ok m
    → mmap (private_request sz) ≡ some m
unfolding mmap_allocate_private
mmap_allocate_private-eq-ok mmap sz m e = ground arith
