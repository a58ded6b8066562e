-- ===== src/Machines/Search.antt =====
-- The type-ahead search of machines.go: its LIKE pattern.
use Prim.Native.Char.{Char}
use Prim.Native.String.{String, [], ◌∷◌}
use Prim.Native.String
use text.Mathlib.TextLemmas.{cons-append}
use starfighter_workflow.Common.{Bool, true, false, ◌≡◌, refl, ◌∙◌, ap, arith, Bool-cases, inl, inr}
use starfighter_workflow.Sql.Like.{same_letter, any_suffix, one, like}
use starfighter_workflow.Machines.Escape.{pattern_of}
use starfighter_workflow.Machines.Escape.{is_wildcard, escape_like}

-- `t` begins with `q`, letters of ASCII in either case
abbrev pub begins : String → String → Bool
begins [] t = true
begins (c ∷ q) t = one (same_letter c) (begins q) t

-- `q` stands somewhere in `t`
abbrev pub holds : String → String → Bool
holds q t = any_suffix (begins q) t

like-plain :
    (c : Char) (ps t : String)
    → is_wildcard c ≡ false
    → like (c ∷ ps) t ≡ one (same_letter c) (like ps) t
unfolding like is_wildcard
like-plain c [] t h = ground arith
like-plain c (q ∷ ps) t h = ground arith

like-escaped : (c : Char) (ps t : String) → like ("\\" ∷ c ∷ ps) t ≡ one (same_letter c) (like ps) t
unfolding like
like-escaped c ps t = refl

like-percent : (ps t : String) → like ("%" ∷ ps) t ≡ any_suffix (like ps) t
unfolding like
like-percent [] t = refl
like-percent (q ∷ ps) t = refl

any_suffix-nil : (t : String) → any_suffix (like []) t ≡ true
unfolding like any_suffix
any_suffix-nil [] = refl
any_suffix-nil (c ∷ t) = any_suffix-nil t

abbrev ending : String → String
ending q = String.◌++◌ (escape_like q) "%"

one-ext :
    (p : Char → Bool) (m n : String → Bool) (t : String)
    → ((s : String) → m s ≡ n s)
    → one p m t ≡ one p n t
one-ext p m n [] h = refl
one-ext p m n (c ∷ t) h = rw (h t)

any_suffix-ext :
    (m n : String → Bool) (t : String)
    → ((s : String) → m s ≡ n s)
    → any_suffix m t ≡ any_suffix n t
unfolding any_suffix
any_suffix-ext m n [] h = h []
any_suffix-ext m n (c ∷ t) h = rw (h (c ∷ t), any_suffix-ext m n t h)

ending-wild : (c : Char) (q : String) → is_wildcard c ≡ true → ending (c ∷ q) ≡ "\\" ∷ c ∷ ending q
ending-wild c q h =
    unfold escape_like in
    rw h (
      cons-append "\\" (c ∷ escape_like q) "%"
      ∙ ap (λ s. "\\" ∷ s) (cons-append c (escape_like q) "%"))

ending-plain : (c : Char) (q : String) → is_wildcard c ≡ false → ending (c ∷ q) ≡ c ∷ ending q
ending-plain c q h = unfold escape_like in rw h (cons-append c (escape_like q) "%")

like-ending : (q t : String) → like (ending q) t ≡ begins q t
like-ending [] t = unfold escape_like in like-percent [] t ∙ any_suffix-nil t
like-ending (c ∷ q) t = elim (Bool-cases (is_wildcard c)) [
  | inl wild ↦
      rw (ending-wild c q wild)
        (like-escaped c (ending q) t ∙ one-ext (same_letter c) _ _ t (like-ending q))
  | inr plain ↦
      rw (ending-plain c q plain)
        (like-plain c (ending q) t plain ∙ one-ext (same_letter c) _ _ t (like-ending q))
]

-- `name LIKE '%' || escapeLike(q) || '%' ESCAPE '\'` holds exactly of the names in which `q` stands
-- somewhere, character for character but for the case of ASCII letters: %, _ and \ in a query are
-- no wildcards.
pub like-escape_like : (q name : String) → like (pattern_of q) name ≡ holds q name
unfolding pattern_of
like-escape_like q name = like-percent (ending q) name ∙ any_suffix-ext _ _ name (like-ending q)
