-- ===== src/Auth/Token/Decode.antt =====
-- The random bytes of a session token can be read back from it.
use Prim.Native.Char.{code}
use Prim.Native.String.{String, [], count}
use Prim.Native.String.count
use mathlib.Core.List.{List}
use starfighter_workflow.Common.{
  ℕ, zero, suc, ◌+◌, ◌-◌, ◌*◌, ◌/◌, ◌%◌, ◌<◌, ◌≡◌, Bool, true, ◌&&◌, refl, ap, arith, All, length,
  leb, ◌=ℕ◌, if◌then◌else◌, sym, and_left, and_right,
}
use mathlib.Core.Path.{subst}
use native.Mathlib.Decide.{ℕ_discrete}
use starfighter_workflow.Auth.Token.{char_at, digit, encode}

-- the number that a digit stands for
abbrev pub value_of : ℕ → ℕ
value_of c =
    if leb b'A' c && leb c b'Z'
    then c - 65
    else if leb b'a' c && leb c b'z'
    then c - 71
    else if leb b'0' c && leb c b'9'
    then c + 4
    else if c =ℕ b'-'
    then 62
    else 63

unfoldable pub values : String → List ℕ
values [] = List.[]
values (String.◌∷◌ c s) = List.◌∷◌ (value_of (code c)) (values s)

-- four digits are three bytes; two or three digits at the end are one or two bytes
unfoldable pub unpack : List ℕ → List ℕ
unpack List.[] = List.[]
unpack (List.◌∷◌ a List.[]) = List.[]
unpack (List.◌∷◌ a (List.◌∷◌ b List.[])) = List.◌∷◌ (a * 4 + b / 16) List.[]
unpack (List.◌∷◌ a (List.◌∷◌ b (List.◌∷◌ c List.[]))) =
    List.◌∷◌ (a * 4 + b / 16) (List.◌∷◌ (b % 16 * 16 + c / 4) List.[])
unpack (List.◌∷◌ a (List.◌∷◌ b (List.◌∷◌ c (List.◌∷◌ d rest)))) =
    List.◌∷◌ (a * 4 + b / 16)
      (List.◌∷◌ (b % 16 * 16 + c / 4) (List.◌∷◌ (c % 4 * 64 + d) (unpack rest)))

unfoldable pub decode : String → List ℕ
unfolding values unpack
decode s = unpack (values s)

-- checked for each of the first `n` numbers
all_below : (ℕ → Bool) → ℕ → Bool
all_below p zero = true
all_below p (suc n) = p n && all_below p n

all_below-lt : (p : ℕ → Bool) (n k : ℕ) → all_below p n ≡ true → k < n → p k ≡ true
unfolding all_below
all_below-lt p zero k h lt = absurd (omega (arith, lt))
all_below-lt p (suc n) k h lt = elim (ℕ_discrete k n) [
  | yes e ↦ subst (λ m. p m ≡ true) (sym e) (and_left _ _ h)
  | no e ↦ all_below-lt p n k (and_right _ _ h) (omega (arith, lt, e))
]

digits_checked : all_below (λ n. value_of (code (digit n)) =ℕ n) 64 ≡ true
unfolding all_below digit char_at
digits_checked = refl

value_of-digit : (n : ℕ) → n < 64 → value_of (code (digit n)) ≡ n
value_of-digit n h =
    ground (arith, all_below-lt (λ n. value_of (code (digit n)) =ℕ n) 64 n digits_checked h)

pair : {a b c d : ℕ} → a ≡ c → b ≡ d → ◌≡◌ {A = ℕ × ℕ} (a, b) (c, d)
pair p q = λ i. (p i, q i)

three :
    {a b c x y z : ℕ} {rest : List ℕ}
    → a ≡ x
    → b ≡ y
    → c ≡ z
    → List.◌∷◌ a (List.◌∷◌ b (List.◌∷◌ c rest)) ≡ List.◌∷◌ x (List.◌∷◌ y (List.◌∷◌ z rest))
three {rest} p q r = λ i. List.◌∷◌ (p i) (List.◌∷◌ (q i) (List.◌∷◌ (r i) rest))

-- The bytes can be read back from their encoding, whatever their number, so different random bytes
-- make different tokens.
pub decode-encode : (bytes : List ℕ) → All (λ b. b < 256) bytes → decode (encode bytes) ≡ bytes
unfolding decode encode values unpack
decode-encode List.[] h = refl
decode-encode (List.◌∷◌ a List.[]) (ha, h) =
    rw (value_of-digit (a / 4) (omega (arith, ha)), value_of-digit (a % 4 * 16) (omega arith))
      (ap (λ x. List.◌∷◌ x List.[]) (omega arith))
decode-encode (List.◌∷◌ a (List.◌∷◌ b List.[])) (ha, (hb, h)) =
    rw
      (
        value_of-digit (a / 4) (omega (arith, ha)),
        value_of-digit (a % 4 * 16 + b / 16) (omega (arith, hb)),
        value_of-digit (b % 16 * 4) (omega arith),
      )
      (ap (λ (x : ℕ × ℕ). List.◌∷◌ x.0 (List.◌∷◌ x.1 List.[]))
        (pair (omega (arith, hb)) (omega (arith, hb))))
decode-encode (List.◌∷◌ a (List.◌∷◌ b (List.◌∷◌ c rest))) (ha, (hb, (hc, h))) =
    rw
      (
        value_of-digit (a / 4) (omega (arith, ha)),
        value_of-digit (a % 4 * 16 + b / 16) (omega (arith, hb)),
        value_of-digit (b % 16 * 4 + c / 64) (omega (arith, hc)),
        value_of-digit (c % 64) (omega arith),
        decode-encode rest h,
      )
      (three (omega (arith, hb)) (omega (arith, hb, hc)) (omega (arith, hc)))

-- The encoding of `n` bytes has `(4n + 2) / 3` characters, rounded down.
pub count-encode : (bytes : List ℕ) → count (encode bytes) ≡ (4 * length bytes + 2) / 3
unfolding encode
count-encode List.[] = omega arith
count-encode (List.◌∷◌ a List.[]) = rw (count.cons, count.cons) (omega arith)
count-encode (List.◌∷◌ a (List.◌∷◌ b List.[])) =
    rw (count.cons, count.cons, count.cons) (omega arith)
count-encode (List.◌∷◌ a (List.◌∷◌ b (List.◌∷◌ c rest))) =
    rw (count.cons, count.cons, count.cons, count.cons, count-encode rest) (omega arith)
