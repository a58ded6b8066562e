-- ===== src/Sql/Rows/Every.antt =====
-- Predicates on every row of a table.
use starfighter_workflow.Common.{
  Bool, true, List, [], ◌∷◌, ◌≡◌, arith, Bool-cases, inl, inr, All, some,
}
use starfighter_workflow.Sql.Rows.Table.{first, update, where_rows}

module _ {ℓ κ} {A : Type ℓ} (P : A → Type κ) where
  pub All-first : (q : A → Bool) (xs : List A) {a : A} → first q xs ≡ some a → All P xs → P a
  unfolding first
  All-first q [] h k = cc
  All-first q (x ∷ xs) h (p, k) = elim (Bool-cases (q x)) [
    | inl here ↦ ground arith
    | inr later ↦ All-first q xs (ground arith) k
  ]

  pub All-update :
      (p : A → Bool) (f : A → A) (xs : List A)
      → ((x : A) → p x ≡ true → P x → P (f x))
      → All P xs
      → All P (update p f xs)
  unfolding update
  All-update p f [] h k = tt
  All-update p f (x ∷ xs) h (k, ks) = (
    elim (Bool-cases (p x)) [ inl hit ↦ rw hit (h x hit k) | inr miss ↦ rw miss k ],
    All-update p f xs h ks,
  )

  pub All-where : (p : A → Bool) (xs : List A) → All P xs → All P (where_rows p xs)
  unfolding where_rows
  All-where p [] k = tt
  All-where p (x ∷ xs) (k, ks) = elim (Bool-cases (p x)) [
    | inl hit ↦ rw hit (k, All-where p xs ks)
    | inr miss ↦ rw miss (All-where p xs ks)
  ]

  -- the rows that are kept, with what keeping them says
  pub All-kept :
      (R : A → Type κ) (p : A → Bool) (xs : List A)
      → ((x : A) → p x ≡ true → P x → R x)
      → All P xs
      → All R (where_rows p xs)
  unfolding where_rows
  All-kept R p [] h k = tt
  All-kept R p (x ∷ xs) h (k, ks) = elim (Bool-cases (p x)) [
    | inl hit ↦ rw hit (h x hit k, All-kept R p xs h ks)
    | inr miss ↦ rw miss (All-kept R p xs h ks)
  ]
