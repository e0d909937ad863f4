-- ===== src/Manager/Backtrace.antt =====
-- source/mutex_manager.cpp, `do_backtrace` and `back_trace`: the walk along the chain of stack
-- frames; and the loop of source/report.h that reads the result.
use sync_perf.Base.{
  ℕ, zero, suc, ◌+◌, ◌%◌, ◌≤◌, ◌<◌, ◌≡◌, ◌≢◌, ap, ◌∙◌, Bool, ◌||◌, List, [], ◌∷◌, ◌==◌, ltb,
  if◌then◌else◌, arith, length, All, Bool-cases, inl, inr,
}

-- `struct stack_frame`, at an address.
pub record Frame : Type 0 where
  pub prev : ℕ
  pub caller_address : ℕ

-- The memory, and the bounds that a frame must lie in.
pub record Stack : Type 0 where
  pub frame : ℕ → Frame
  pub stack_top : ℕ
  pub stack_end : ℕ  -- __libc_stack_end

unfoldable pub outside : Stack → ℕ → Bool
outside s addr = ltb addr s.stack_top || ltb s.stack_end addr

-- The first loop: leave the frames of the tracer itself.
unfoldable pub skip_frames : ℕ → Stack → ℕ → ℕ
unfolding outside
skip_frames zero s addr = addr
skip_frames (suc n) s addr =
    let rest = skip_frames n s (s.frame addr).prev in if outside s addr then addr else rest

-- The tests at which the second loop stops.
unfoldable pub stops : Stack → ℕ → Bool
unfolding outside
stops s addr =
    outside s addr
    || ((s.frame addr).caller_address == 0 || addr == (s.frame addr).prev)
    || addr % 2 == 1

-- The second loop, with the rounds left: the addresses that it stores, in order.
unfoldable pub collect : ℕ → Stack → ℕ → List ℕ
unfolding stops
collect zero s addr = []
collect (suc n) s addr =
    let rest = (s.frame addr).caller_address ∷ collect n s (s.frame addr).prev in
    if stops s addr then [] else rest

-- `if (found > 1) found--`: the last address goes, unless it is the only one.
unfoldable pub omit_last : List ℕ → List ℕ
omit_last [] = []
omit_last (a ∷ []) = a ∷ []
omit_last (a ∷ b ∷ []) = a ∷ []
omit_last (a ∷ b ∷ c ∷ r) = a ∷ omit_last (b ∷ c ∷ r)

-- The addresses before the 0 that is stored at the end; `skipped` is 2 in `do_backtrace` and 1 in
-- `back_trace`, and `here` is the frame of the tracer.
unfoldable pub trace : ℕ → Stack → ℕ → ℕ → List ℕ
unfolding skip_frames collect omit_last
trace skipped s here size = omit_last (collect size s (skip_frames skipped s here))

unfoldable pub do_backtrace : Stack → ℕ → ℕ → List ℕ
unfolding trace
do_backtrace = trace 2

unfoldable pub back_trace : Stack → ℕ → ℕ → List ℕ
unfolding trace
back_trace = trace 1

-- The array as the caller finds it: the stored addresses, the 0, and what stood there before.
unfoldable pub stored : List ℕ → (ℕ → ℕ) → ℕ → ℕ
stored [] old zero = 0
stored [] old (suc i) = old (suc i)
stored (a ∷ as') old zero = a
stored (a ∷ as') old (suc i) = stored as' (λ j. old (suc j)) i

-- `while (stacks[depth]) depth++`, from `depth` on, with fuel: the addresses that it visits.
unfoldable pub read_stack : ℕ → (ℕ → ℕ) → ℕ → List ℕ
read_stack zero a depth = []
read_stack (suc f) a depth =
    let rest = a depth ∷ read_stack f a (depth + 1) in if a depth == 0 then [] else rest

length-collect : (n : ℕ) (s : Stack) (addr : ℕ) → length (collect n s addr) ≤ n
unfolding collect
length-collect zero s addr = omega arith
length-collect (suc n) s addr = ground (arith, length-collect n s (s.frame addr).prev)

collect_nonzero : (n : ℕ) (s : Stack) (addr : ℕ) → All (λ a. a ≢ 0) (collect n s addr)
unfolding collect stops
collect_nonzero zero s addr = tt
collect_nonzero (suc n) s addr = elim (Bool-cases (stops s addr)) [
  | inl stop ↦ rw stop tt
  | inr go ↦ rw go (ground arith, collect_nonzero n s (s.frame addr).prev)
]

length-omit_last :
    (l : List ℕ) → (length (omit_last l) ≤ length l) × (0 < length l → 0 < length (omit_last l))
unfolding omit_last
length-omit_last [] = omega arith
length-omit_last (a ∷ []) = omega arith
length-omit_last (a ∷ b ∷ []) = omega arith
length-omit_last (a ∷ b ∷ c ∷ r) = omega (arith, length-omit_last (b ∷ c ∷ r))

omit_last_nonzero : (l : List ℕ) → All (λ a. a ≢ 0) l → All (λ a. a ≢ 0) (omit_last l)
unfolding omit_last
omit_last_nonzero [] h = tt
omit_last_nonzero (a ∷ []) h = h
omit_last_nonzero (a ∷ b ∷ []) h = (h.0, tt)
omit_last_nonzero (a ∷ b ∷ c ∷ r) h = (h.0, omit_last_nonzero (b ∷ c ∷ r) h.1)

-- At most `size` addresses are kept, so the 0 behind them lies within an array of `size + 1`
-- places, and none of them is 0.
pub trace_bounds :
    (skipped : ℕ) (s : Stack) (here size : ℕ)
    → (length (trace skipped s here size) ≤ size) × All (λ a. a ≢ 0) (trace skipped s here size)
unfolding trace
trace_bounds skipped s here size = (
  omega (
    arith,
    length-omit_last (collect size s (skip_frames skipped s here)),
    length-collect size s (skip_frames skipped s here),
  ),
  omit_last_nonzero _ (collect_nonzero size s (skip_frames skipped s here)),
)

read_stack_from :
    (f : ℕ) (a : ℕ → ℕ) (depth : ℕ) (l : List ℕ) (old : ℕ → ℕ)
    → length l < f
    → All (λ x. x ≢ 0) l
    → ((j : ℕ) → a (depth + j) ≡ stored l old j)
    → read_stack f a depth ≡ l
unfolding read_stack stored
read_stack_from zero a depth l old h nz e = absurd (omega arith)
read_stack_from (suc f) a depth [] old h nz e =
    let here : a depth ≡ 0 = ap a (omega arith) ∙ e 0 in ground arith
read_stack_from (suc f) a depth (x ∷ l) old h nz e =
    let here : a depth ≡ x = ap a (omega arith) ∙ e 0 in
    let rest : read_stack f a (depth + 1) ≡ l =
      read_stack_from f a (depth + 1) l (λ j. old (suc j)) (omega arith) nz.1
        (λ j. ap a (omega arith) ∙ e (suc j)) in
    ground (arith, nz.0)

-- The report's loop reads back exactly the addresses that `do_backtrace` or `back_trace` stored,
-- whatever stood in the array before: it stops at the 0 and runs at most `size + 1` rounds.
pub read_stack-trace :
    (skipped : ℕ) (s : Stack) (here size : ℕ) (old : ℕ → ℕ)
    → read_stack (size + 1) (stored (trace skipped s here size) old) 0 ≡ trace skipped s here size
read_stack-trace skipped s here size old =
    let (short, nonzero) = trace_bounds skipped s here size in
    read_stack_from (size + 1) _ 0 (trace skipped s here size) old (omega arith) nonzero
      (λ j. ap (stored (trace skipped s here size) old) (omega arith))
