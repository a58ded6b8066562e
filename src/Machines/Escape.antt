-- ===== src/Machines/Escape.antt =====
-- `escapeLike` of machines.go: a Replacer that puts a backslash before each of \ % _.
use Prim.Native.Char.{Char, code}
use Prim.Native.String.{String, [], ◌∷◌, ◌++◌}
use starfighter_workflow.Common.{Bool, ◌||◌, ◌=ℕ◌, if◌then◌else◌}

unfoldable pub is_wildcard : Char → Bool
is_wildcard c = code c =ℕ 0x5c || code c =ℕ b'%' || code c =ℕ b'_'

unfoldable pub escape_like : String → String
unfolding is_wildcard
escape_like [] = []
escape_like (c ∷ s) =
    let rest = escape_like s in if is_wildcard c then "\\" ∷ c ∷ rest else c ∷ rest

-- the argument of LIKE, `"%"+escapeLike(query)+"%"`
unfoldable pub pattern_of : String → String
pattern_of q = "%" ∷ (escape_like q ++ "%")
