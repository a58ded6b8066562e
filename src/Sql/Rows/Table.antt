-- ===== src/Sql/Rows/Table.antt =====
-- WHERE, COUNT, UPDATE and DELETE on a table. Each statement of the program is one of these
-- functions at the row test and the assignments that its text states.
use starfighter_workflow.Common.{
  ℕ, ◌+◌, Bool, not, List, [], ◌∷◌, if◌then◌else◌, Option, none, some,
}

module _ {ℓ} {A : Type ℓ} where
  -- the first row of SELECT … WHERE p; `none` is `sql.ErrNoRows`
  unfoldable pub first : (A → Bool) → List A → Option A
  first p [] = none
  first p (x ∷ xs) = if p x then some x else first p xs

  -- SELECT COUNT(1) … WHERE p, and the affected rows of UPDATE and DELETE … WHERE p
  unfoldable pub count : (A → Bool) → List A → ℕ
  count p [] = 0
  count p (x ∷ xs) = (if p x then 1 else 0) + count p xs

  -- UPDATE … SET f WHERE p
  unfoldable pub update : (A → Bool) → (A → A) → List A → List A
  update p f [] = []
  update p f (x ∷ xs) = (if p x then f x else x) ∷ update p f xs

  -- SELECT … WHERE p
  unfoldable pub where_rows : (A → Bool) → List A → List A
  where_rows p [] = []
  where_rows p (x ∷ xs) = let rest = where_rows p xs in if p x then x ∷ rest else rest

  -- DELETE … WHERE p
  unfoldable pub delete : (A → Bool) → List A → List A
  unfolding where_rows
  delete p = where_rows (λ x. not (p x))
