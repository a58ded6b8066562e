-- ===== src/Common/Decimal.antt =====
-- What the program uses of Go's strconv: `ParseInt(s, 10, 64)`, and `Atoi`, the same where an int has
-- 64 bits. Every error is `none`.
use Prim.Native.Char.{code}
use Prim.Native.String.{String, [], ◌∷◌}
use Prim.Native.Nat.{ℕ, zero, suc, ◌+◌, ◌-◌, ◌*◌, ◌≤◌}
use mathlib.Core.Path.{◌≡◌, refl}
use mathlib.Core.Bool.{◌&&◌}
use mathlib.Core.Option.{Option, none, some}
use native.Mathlib.Omega.{arith}
use starfighter_workflow.Common.Tests.{ltb, leb, ◌=ℕ◌, if◌then◌else◌}
use starfighter_workflow.Common.Int.{ℤ, pos, negsuc}

-- the number that decimal digits spell behind `n`. It has no bound: a number that is past uint64
-- fails the tests of the range as well.
unfoldable pub digits_value : ℕ → String → Option ℕ
digits_value n [] = some n
digits_value n (c ∷ s) =
    let rest = digits_value (n * 10 + (code c - b'0')) s in
    if leb b'0' (code c) && leb (code c) b'9' then rest else none

unfoldable pub parse_digits : String → Option ℕ
unfolding digits_value
parse_digits [] = none
parse_digits (c ∷ s) = digits_value 0 (c ∷ s)

-- 2 ^ 63
abbrev pub int_limit : ℕ
int_limit = 9223372036854775808

abbrev negated : ℕ → ℤ
negated zero = pos zero
negated (suc n) = negsuc n

abbrev positive_in : Option ℕ → Option ℤ
positive_in none = none
positive_in (some n) = if ltb n int_limit then some (pos n) else none

abbrev negative_in : Option ℕ → Option ℤ
negative_in none = none
negative_in (some n) = if leb n int_limit then some (negated n) else none

unfoldable pub parse_int : String → Option ℤ
unfolding parse_digits
parse_int [] = none
parse_int (c ∷ s) =
    if code c =ℕ b'-'
    then negative_in (parse_digits s)
    else if code c =ℕ b'+'
    then positive_in (parse_digits s)
    else positive_in (parse_digits (c ∷ s))

-- what an int64 holds
abbrev pub IsInt : ℤ → Type 0
IsInt (pos n) = suc n ≤ int_limit
IsInt (negsuc n) = suc n ≤ int_limit

positive-IsInt : (o : Option ℕ) {k : ℤ} → positive_in o ≡ some k → IsInt k
positive-IsInt none h = absurd (ground arith)
positive-IsInt (some n) {k = pos k} h = ground arith
positive-IsInt (some n) {k = negsuc k} h = absurd (ground arith)

negative-IsInt : (o : Option ℕ) {k : ℤ} → negative_in o ≡ some k → IsInt k
negative-IsInt none h = absurd (ground arith)
negative-IsInt (some zero) {k = pos k} h = ground arith
negative-IsInt (some zero) {k = negsuc k} h = absurd (ground arith)
negative-IsInt (some (suc n)) {k = pos k} h = absurd (ground arith)
negative-IsInt (some (suc n)) {k = negsuc k} h = ground arith

-- whatever text is parsed, the number fits
pub parse_int-IsInt : (s : String) {k : ℤ} → parse_int s ≡ some k → IsInt k
unfolding parse_int
parse_int-IsInt [] h = absurd (ground arith)
parse_int-IsInt (c ∷ s) h = ground (
  arith,
  positive-IsInt (parse_digits s),
  positive-IsInt (parse_digits (c ∷ s)),
  negative-IsInt (parse_digits s),
)

largest : parse_int "9223372036854775807" ≡ some (pos 9223372036854775807)
unfolding parse_int
largest = refl

too_large : parse_int "9223372036854775808" ≡ none
unfolding parse_int
too_large = refl

smallest : parse_int "-9223372036854775808" ≡ some (negsuc 9223372036854775807)
unfolding parse_int
smallest = refl
