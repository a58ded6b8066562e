-- ===== src/Auth/Token.antt =====
-- What `newSessionToken` of auth.go uses of the standard library: base64.RawURLEncoding.
pub mod Decode
use Prim.Native.Char.{Char}
use Prim.Native.String.{String, []}
use mathlib.Core.List.{List}
use starfighter_workflow.Common.{ℕ, zero, suc, ◌+◌, ◌*◌, ◌/◌, ◌%◌}

abbrev pub alphabet : String
alphabet = "ABCDEFGHIJKLMNOPQRSTUVWXYZabcdefghijklmnopqrstuvwxyz0123456789-_"

unfoldable pub char_at : String → ℕ → Char
char_at [] n = "A"
char_at (String.◌∷◌ c s) zero = c
char_at (String.◌∷◌ c s) (suc n) = char_at s n

unfoldable pub digit : ℕ → Char
unfolding char_at
digit n = char_at alphabet n

-- three bytes make four digits; one or two at the end make two or three, without padding
unfoldable pub encode : List ℕ → String
unfolding digit
encode List.[] = []
encode (List.◌∷◌ a List.[]) = String.◌∷◌ (digit (a / 4)) (String.◌∷◌ (digit (a % 4 * 16)) [])
encode (List.◌∷◌ a (List.◌∷◌ b List.[])) =
    String.◌∷◌ (digit (a / 4))
      (String.◌∷◌ (digit (a % 4 * 16 + b / 16)) (String.◌∷◌ (digit (b % 16 * 4)) []))
encode (List.◌∷◌ a (List.◌∷◌ b (List.◌∷◌ c rest))) = String.◌∷◌ (digit (a / 4)) (
    String.◌∷◌ (digit (a % 4 * 16 + b / 16))
      (String.◌∷◌ (digit (b % 16 * 4 + c / 64)) (String.◌∷◌ (digit (c % 64)) (encode rest))))
