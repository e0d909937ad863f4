-- ===== src/Report/Format.antt =====
-- The insertions into a stream that source/report.h uses: texts, numbers and the ends of lines; and
-- how a reader takes a line apart again.
use Prim.Native.Char.{code}
use Prim.Native.String.{String}
use sync_perf.Base.{
  ℕ, zero, suc, ◌+◌, ◌-◌, ◌*◌, ◌/◌, ◌%◌, ◌<◌, ◌≡◌, ◌≢◌, refl, ap, ◌∙◌, arith, Option, none, some,
  [], ◌∷◌, ◌++◌, All, ltb, ◌==◌, if◌then◌else◌,
}
use sync_perf.Report.Contexts.{Text}
use sync_perf.Report.Texts.{newline}

abbrev pub codes : String → Text
codes String.[] = []
codes (String.◌∷◌ c s) = code c ∷ codes s

-- A text and `std::endl`.
abbrev pub line : Text → Text
line s = s ++ newline ∷ []

-- A number in decimal digits, with more rounds than it has digits.
unfoldable pub digits : (rounds n : ℕ) → Text
digits zero n = []
digits (suc rounds) n =
    let front = digits rounds (n / 10) in
    if ltb n 10 then (b'0' + n) ∷ [] else front ++ (b'0' + n % 10) ∷ []

abbrev pub decimal : ℕ → Text
decimal n = digits (suc n) n

-- The number that digits spell, behind the number `n`.
abbrev pub value : ℕ → Text → ℕ
value n [] = n
value n (c ∷ s) = value (n * 10 + (c - b'0')) s

value-append : (n : ℕ) (s t : Text) → value n (s ++ t) ≡ value (value n s) t
value-append n [] t = refl
value-append n (c ∷ s) t = value-append (n * 10 + (c - b'0')) s t

value-digits : (rounds n : ℕ) → n < rounds → value 0 (digits rounds n) ≡ n
unfolding digits
value-digits zero n h = absurd (omega arith)
value-digits (suc rounds) n h = ground (
  arith,
  value-digits rounds (n / 10),
  value-append 0 (digits rounds (n / 10)) ((b'0' + n % 10) ∷ []),
)

pub value-decimal : (n : ℕ) → value 0 (decimal n) ≡ n
value-decimal n = value-digits (suc n) n (omega arith)

-- A text of one line.
abbrev pub Lacks : Text → Type 0
Lacks s = All (λ c. c ≢ newline) s

pub Lacks-append : (s t : Text) → Lacks s → Lacks t → Lacks (s ++ t)
Lacks-append [] t h k = k
Lacks-append (c ∷ s) t (h, hs) k = (h, Lacks-append s t hs k)

Lacks-digits : (rounds n : ℕ) → Lacks (digits rounds n)
unfolding digits
Lacks-digits zero n = tt
Lacks-digits (suc rounds) n = ground (
  arith,
  Lacks-append (digits rounds (n / 10)) ((b'0' + n % 10) ∷ []) (Lacks-digits rounds (n / 10))
      (omega arith, tt),
)

-- The first line, and what is behind it.
unfoldable pub take_line : Text → Text × Text
take_line [] = ([], [])
take_line (c ∷ s) = let (l, rest) = take_line s in if c == newline then ([], s) else (c ∷ l, rest)

take_line-line : (s rest : Text) → Lacks s → take_line (line s ++ rest) ≡ (s, rest)
unfolding take_line
take_line-line [] rest h = refl
take_line-line (c ∷ s) rest (h, hs) = ground (arith, take_line-line s rest hs)

-- What is behind a prefix.
unfoldable pub strip : (prefix : Text) → Text → Option Text
strip [] s = some s
strip (c ∷ p) [] = none
strip (c ∷ p) (d ∷ s) = if c == d then strip p s else none

pub strip-append : (p s : Text) → strip p (p ++ s) ≡ some s
unfolding strip
strip-append [] s = refl
strip-append (c ∷ p) s = ground (arith, strip-append p s)

-- The value on a line that begins with the given text, and the lines below.
abbrev pub with_rest : Option Text → Text → Option (Text × Text)
with_rest none rest = none
with_rest (some v) rest = some (v, rest)

unfoldable pub read_field : (prefix : Text) → Text → Option (Text × Text)
unfolding take_line strip
read_field p t = let (l, rest) = take_line t in with_rest (strip p l) rest

pub read_field-line :
    (p v rest : Text) → Lacks p → Lacks v → read_field p (line (p ++ v) ++ rest) ≡ some (v, rest)
unfolding read_field
read_field-line p v rest hp hv =
    ap (λ (r : Text × Text). with_rest (strip p r.0) r.1)
      (take_line-line (p ++ v) rest (Lacks-append p v hp hv))
    ∙ ap (λ o. with_rest o rest) (strip-append p v)

pub Lacks-decimal : (n : ℕ) → Lacks (decimal n)
Lacks-decimal n = Lacks-digits (suc n) n
