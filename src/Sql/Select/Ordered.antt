-- ===== src/Sql/Select/Ordered.antt =====
-- What ORDER BY and LIMIT make of the rows.
use starfighter_workflow.Common.{
  drop, ◌++◌, ap, ◌⊎◌, ℕ, zero, suc, ◌≤◌, Bool, true, false, List, [], ◌∷◌, ◌≡◌, refl, All, All-map,
  length, take, arith, Bool-cases, inl, inr,
}
use starfighter_workflow.Sql.Rows.{count}
use starfighter_workflow.Sql.Select.{insert_by, order_by}

module _ {A : Type 0} (before : A → A → Bool) where
  -- no row comes before an earlier one
  abbrev pub IsOrdered : List A → Type 0
  IsOrdered [] = Unit
  IsOrdered (x ∷ xs) = All (λ y. before y x ≡ false) xs × IsOrdered xs

  count-insert_by :
      (p : A → Bool) (x : A) (xs : List A) → count p (insert_by before x xs) ≡ count p (x ∷ xs)
  unfolding count insert_by
  count-insert_by p x [] = refl
  count-insert_by p x (y ∷ ys) = ground (arith, count-insert_by p x ys)

  -- sorting loses no row and adds none
  pub count-order_by : (p : A → Bool) (xs : List A) → count p (order_by before xs) ≡ count p xs
  unfolding count order_by
  count-order_by p [] = refl
  count-order_by p (x ∷ xs) =
      ground (arith, count-insert_by p x (order_by before xs), count-order_by p xs)

  module _ (P : A → Type 0) where
    All-insert_by : (x : A) (xs : List A) → P x → All P xs → All P (insert_by before x xs)
    unfolding insert_by
    All-insert_by x [] h k = (h, tt)
    All-insert_by x (y ∷ ys) h (k, ks) = elim (Bool-cases (before x y)) [
      | inl e ↦ rw e (h, (k, ks))
      | inr e ↦ rw e (k, All-insert_by x ys h ks)
    ]

    pub All-order_by : (xs : List A) → All P xs → All P (order_by before xs)
    unfolding order_by
    All-order_by [] h = tt
    All-order_by (x ∷ xs) (h, hs) = All-insert_by x (order_by before xs) h (All-order_by xs hs)

  module _ (asym : (x y : A) → before x y ≡ true → before y x ≡ false)
      (mix : (x y z : A) → before x y ≡ true → before z y ≡ false → before z x ≡ false) where
    insert_by-IsOrdered : (x : A) (xs : List A) → IsOrdered xs → IsOrdered (insert_by before x xs)
    unfolding insert_by
    insert_by-IsOrdered x [] h = (tt, tt)
    insert_by-IsOrdered x (y ∷ ys) (h, hs) = elim (Bool-cases (before x y)) [
      | inl e ↦ rw e ((asym x y e, All-map (λ z k. mix x y z e k) ys h), (h, hs))
      | inr e ↦ rw e (All-insert_by (λ z. before z y ≡ false) x ys e h, insert_by-IsOrdered x ys hs)
    ]

    pub order_by-IsOrdered : (xs : List A) → IsOrdered (order_by before xs)
    unfolding order_by
    order_by-IsOrdered [] = tt
    order_by-IsOrdered (x ∷ xs) = insert_by-IsOrdered x (order_by before xs) (order_by-IsOrdered xs)

module _ {A : Type 0} where
  pub length-take : (n : ℕ) (xs : List A) → length (take n xs) ≤ n
  length-take zero xs = omega arith
  length-take (suc n) [] = omega arith
  length-take (suc n) (x ∷ xs) = omega (arith, length-take n xs)

  pub take-drop : (n : ℕ) (xs : List A) → take n xs ++ drop n xs ≡ xs
  take-drop zero xs = refl
  take-drop (suc n) [] = refl
  take-drop (suc n) (x ∷ xs) = ap (◌∷◌ x) (take-drop n xs)

  -- LIMIT leaves rows out only when it is reached
  pub drop-take : (n : ℕ) (xs : List A) → (drop n xs ≡ []) ⊎ (length (take n xs) ≡ n)
  drop-take zero xs = inr refl
  drop-take (suc n) [] = inl refl
  drop-take (suc n) (x ∷ xs) = elim (drop-take n xs) [ inl e ↦ inl e | inr e ↦ inr (ap suc e) ]
