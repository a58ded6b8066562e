-- ===== src/Sql/Like.antt =====
-- SQLite's LIKE … ESCAPE '\': `%` stands for any text, `_` for any one character, letters of
-- ASCII match in either case, and an escaped character stands for itself.
use Prim.Native.Char.{Char, code}
use Prim.Native.String.{String, [], ◌∷◌}
use starfighter_workflow.Common.{Bool, true, false, ◌&&◌, ◌||◌, ◌=ℕ◌, if◌then◌else◌}
use starfighter_workflow.Sql.Collate.{lower}

abbrev pub same_letter : Char → Char → Bool
same_letter c d = lower (code c) =ℕ lower (code d)

-- some suffix of the text passes
unfoldable pub any_suffix : (String → Bool) → String → Bool
any_suffix m [] = m []
any_suffix m (c ∷ s) = m (c ∷ s) || any_suffix m s

-- one character of the text, and then the rest of the pattern
abbrev pub one : (Char → Bool) → (String → Bool) → String → Bool
one p m [] = false
one p m (c ∷ s) = p c && m s

-- the pattern comes first; an escape at its end matches nothing
unfoldable pub like : String → String → Bool
unfolding any_suffix lower
like [] [] = true
like [] (c ∷ s) = false
like (p ∷ []) s =
    if code p =ℕ b'%'
    then any_suffix (like []) s
    else if code p =ℕ b'_'
    then one (λ c. true) (like []) s
    else if code p =ℕ 0x5c
    then false
    else one (same_letter p) (like []) s
like (p ∷ q ∷ ps) s =
    if code p =ℕ b'%'
    then any_suffix (like (q ∷ ps)) s
    else if code p =ℕ b'_'
    then one (λ c. true) (like (q ∷ ps)) s
    else if code p =ℕ 0x5c
    then one (same_letter q) (like ps) s
    else one (same_letter p) (like (q ∷ ps)) s
