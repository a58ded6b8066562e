-- ===== src/Sql/Rows/Changes.antt =====
-- What UPDATE and DELETE do to what SELECT finds and COUNT counts.
use starfighter_workflow.Common.{
  ◌+◌, ◌≤◌, Bool, true, false, ◌&&◌, List, [], ◌∷◌, ◌++◌, ◌≡◌, refl, arith, if◌then◌else◌,
  Bool-cases, inl, inr, none,
}
use mathlib.Core.Option
use starfighter_workflow.Sql.Rows.Table.{first, count, update, where_rows, delete}

module _ {ℓ} {A : Type ℓ} (q : A → Bool) where
  -- an update that keeps the test `q` acts on the row that `q` finds
  pub first-update :
      (p : A → Bool) (f : A → A) (xs : List A)
      → ((x : A) → p x ≡ true → q (f x) ≡ q x)
      → first q (update p f xs) ≡ Option.map (λ x. if p x then f x else x) (first q xs)
  unfolding first update
  first-update p f [] h = refl
  first-update p f (x ∷ xs) h = ground (arith, h x, first-update p f xs h)

  pub count-update :
      (p : A → Bool) (f : A → A) (xs : List A)
      → ((x : A) → p x ≡ true → q (f x) ≡ q x)
      → count q (update p f xs) ≡ count q xs
  unfolding count update
  count-update p f [] h = refl
  count-update p f (x ∷ xs) h = ground (arith, h x, count-update p f xs h)

  pub count-append : (xs ys : List A) → count q (xs ++ ys) ≡ count q xs + count q ys
  unfolding count
  count-append [] ys = omega arith
  count-append (x ∷ xs) ys = omega (arith, count-append xs ys)

  pub count-where-le : (p : A → Bool) (xs : List A) → count q (where_rows p xs) ≤ count q xs
  unfolding count where_rows
  count-where-le p [] = omega arith
  count-where-le p (x ∷ xs) = ground (arith, count-where-le p xs)

  pub count-ext : (p : A → Bool) (xs : List A) → ((x : A) → q x ≡ p x) → count q xs ≡ count p xs
  unfolding count
  count-ext p [] h = refl
  count-ext p (x ∷ xs) h = ground (arith, h x, count-ext p xs h)

  -- deleting rows that `q` does not pass leaves the row that it finds
  pub first-delete :
      (p : A → Bool) (xs : List A)
      → ((x : A) → q x ≡ true → p x ≡ false)
      → first q (delete p xs) ≡ first q xs
  unfolding first delete
  first-delete p [] h = refl
  first-delete p (x ∷ xs) h = ground (arith, h x, first-delete p xs h)

  -- rows that `q` passes are gone after a delete that takes them all
  pub first-deleted :
      (p : A → Bool) (xs : List A)
      → ((x : A) → q x ≡ true → p x ≡ true)
      → first q (delete p xs) ≡ none
  unfolding first delete
  first-deleted p [] h = refl
  first-deleted p (x ∷ xs) h = ground (arith, h x, first-deleted p xs h)

  -- a row is deleted, or counted still
  pub count-delete :
      (p : A → Bool) (xs : List A) → count p (delete q xs) + count (λ x. q x && p x) xs ≡ count p xs
  unfolding count delete
  count-delete p [] = omega arith
  count-delete p (x ∷ xs) = ground (arith, count-delete p xs)

  -- an update changes the count by the rows that it touches
  pub count-update_split :
      (p : A → Bool) (f : A → A) (xs : List A)
      → count p (update q f xs) + count (λ x. q x && p x) xs
        ≡ count p xs + count (λ x. q x && p (f x)) xs
  unfolding count update
  count-update_split p f [] = omega arith
  count-update_split p f (x ∷ xs) = ground (arith, count-update_split p f xs)

  pub count-and-le : (p : A → Bool) (xs : List A) → count (λ x. q x && p x) xs ≤ count q xs
  unfolding count
  count-and-le p [] = omega arith
  count-and-le p (x ∷ xs) = ground (arith, count-and-le p xs)

-- an update whose rows no longer pass its own test leaves no row that does
pub count-update_miss {ℓ} :
    {A : Type ℓ} (p : A → Bool) (f : A → A) (xs : List A)
    → ((x : A) → p (f x) ≡ false)
    → count p (update p f xs) ≡ 0
unfolding count update
count-update_miss p f [] h = refl
count-update_miss p f (x ∷ xs) h = elim (Bool-cases (p x)) [
  | inl hit ↦ rw (hit, h x) (omega (arith, count-update_miss p f xs h))
  | inr miss ↦ rw (miss, miss) (omega (arith, count-update_miss p f xs h))
]
