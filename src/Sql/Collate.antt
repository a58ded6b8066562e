-- ===== src/Sql/Collate.antt =====
-- COLLATE NOCASE: SQLite folds the 26 letters of ASCII and nothing else.
use Prim.Native.Char.{code}
use Prim.Native.String.{String, [], ◌∷◌}
use mathlib.Core.List.{List}
use starfighter_workflow.Common.{
  ℕ, ◌+◌, Bool, true, false, ◌&&◌, ◌≡◌, sym, refl, ◌↔◌, leb, ltb, ◌=ℕ◌, arith, if◌then◌else◌, ap,
  Bool-cases, inl, inr,
}

unfoldable pub lower : ℕ → ℕ
lower c = if leb b'A' c && leb c b'Z' then c + 32 else c

unfoldable pub fold : String → List ℕ
unfolding lower
fold [] = List.[]
fold (c ∷ s) = List.◌∷◌ (lower (code c)) (fold s)

unfoldable pub same_codes : List ℕ → List ℕ → Bool
same_codes List.[] List.[] = true
same_codes (List.◌∷◌ a xs) (List.◌∷◌ b ys) = a =ℕ b && same_codes xs ys
same_codes _ _ = false

-- `s = t COLLATE NOCASE`
unfoldable pub nocase_eq : String → String → Bool
unfolding fold same_codes
nocase_eq s t = same_codes (fold s) (fold t)

same_codes_iff : (xs ys : List ℕ) → (same_codes xs ys ≡ true) ↔ (xs ≡ ys)
unfolding same_codes
same_codes_iff List.[] List.[] = ground arith
same_codes_iff List.[] (List.◌∷◌ b ys) = ground arith
same_codes_iff (List.◌∷◌ a xs) List.[] = ground arith
same_codes_iff (List.◌∷◌ a xs) (List.◌∷◌ b ys) = ground (arith, same_codes_iff xs ys)

pub nocase_eq_iff : (s t : String) → (nocase_eq s t ≡ true) ↔ (fold s ≡ fold t)
nocase_eq_iff s t = unfold nocase_eq in same_codes_iff (fold s) (fold t)

codes_before : List ℕ → List ℕ → Bool
codes_before List.[] List.[] = false
codes_before List.[] _ = true
codes_before _ List.[] = false
codes_before (List.◌∷◌ a xs) (List.◌∷◌ b ys) =
    let rest = codes_before xs ys in if ltb a b then true else if ltb b a then false else rest

-- the order of ORDER BY … COLLATE NOCASE
unfoldable pub nocase_before : String → String → Bool
unfolding codes_before fold
nocase_before s t = codes_before (fold s) (fold t)

-- names that NOCASE equates are equated with the same names
pub nocase_eq-fold : (s t u : String) → nocase_eq u t ≡ true → nocase_eq s t ≡ nocase_eq s u
unfolding nocase_eq
nocase_eq-fold s t u h = ap (same_codes (fold s)) (sym ((nocase_eq_iff u t).0 h))

codes_before-asym : (xs ys : List ℕ) → codes_before xs ys ≡ true → codes_before ys xs ≡ false
unfolding codes_before
codes_before-asym List.[] List.[] h = ground arith
codes_before-asym List.[] (List.◌∷◌ b ys) h = refl
codes_before-asym (List.◌∷◌ a xs) List.[] h = ground arith
codes_before-asym (List.◌∷◌ a xs) (List.◌∷◌ b ys) h = elim (Bool-cases (codes_before xs ys)) [
  | inl e ↦ ground (arith, codes_before-asym xs ys e)
  | inr e ↦ ground arith
]

codes_before-mix :
    (xs ys zs : List ℕ)
    → codes_before xs ys ≡ true
    → codes_before zs ys ≡ false
    → codes_before zs xs ≡ false
unfolding codes_before
codes_before-mix List.[] ys List.[] h k = refl
codes_before-mix List.[] ys (List.◌∷◌ c zs) h k = refl
codes_before-mix (List.◌∷◌ a xs) List.[] zs h k = ground arith
codes_before-mix (List.◌∷◌ a xs) (List.◌∷◌ b ys) List.[] h k = ground arith
codes_before-mix (List.◌∷◌ a xs) (List.◌∷◌ b ys) (List.◌∷◌ c zs) h k =
    elim (Bool-cases (codes_before xs ys)) [
      | inl e ↦ elim (Bool-cases (codes_before zs ys)) [
        | inl f ↦ ground arith
        | inr f ↦ ground (arith, codes_before-mix xs ys zs e f)
      ]
      | inr e ↦ ground arith
    ]

pub nocase_before-asym : (s t : String) → nocase_before s t ≡ true → nocase_before t s ≡ false
unfolding nocase_before
nocase_before-asym s t h = codes_before-asym (fold s) (fold t) h

pub nocase_before-mix :
    (s t u : String)
    → nocase_before s t ≡ true
    → nocase_before u t ≡ false
    → nocase_before u s ≡ false
unfolding nocase_before
nocase_before-mix s t u h k = codes_before-mix (fold s) (fold t) (fold u) h k
