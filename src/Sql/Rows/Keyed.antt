-- ===== src/Sql/Rows/Keyed.antt =====
-- Tables where a test is a unique key: it finds one row, and a further test is that row's.
use starfighter_workflow.Common.{
  ◌≤◌, Bool, true, false, ◌&&◌, List, [], ◌∷◌, ◌++◌, ◌≡◌, refl, arith, if◌then◌else◌, none, some,
}
use starfighter_workflow.Sql.Rows.Table.{first, count, update, where_rows, delete}

module _ {ℓ} {A : Type ℓ} (q : A → Bool) where
  -- what `q` does not find is not counted
  pub count-first-none :
      (p : A → Bool) (xs : List A) → first q xs ≡ none → count (λ x. q x && p x) xs ≡ 0
  unfolding count first
  count-first-none p [] h = refl
  count-first-none p (x ∷ xs) h = ground (arith, count-first-none p xs)

  count_zero : (p : A → Bool) (xs : List A) → count q xs ≡ 0 → count (λ x. q x && p x) xs ≡ 0
  unfolding count
  count_zero p [] h = refl
  count_zero p (x ∷ xs) h = ground (arith, count_zero p xs)

  -- under a unique key `q`, a further test is the test of the one row that `q` finds
  pub count-first-some :
      (p : A → Bool) (xs : List A) {a : A}
      → count q xs ≤ 1
      → first q xs ≡ some a
      → count (λ x. q x && p x) xs ≡ (if p a then 1 else 0)
  unfolding count first
  count-first-some p [] u h = cc
  count-first-some p (x ∷ xs) {a} u h =
      ground (arith, count-first-some p xs {a = a}, count_zero p xs)

  pub count-not_found : (xs : List A) → first q xs ≡ none → count q xs ≡ 0
  unfolding count first
  count-not_found [] h = refl
  count-not_found (x ∷ xs) h = ground (arith, count-not_found xs)

  pub first_zero : (xs : List A) → count q xs ≡ 0 → first q xs ≡ none
  unfolding count first
  first_zero [] h = refl
  first_zero (x ∷ xs) h = ground (arith, first_zero xs)

  update_none_all : (f : A → A) (xs : List A) → count q xs ≡ 0 → update q f xs ≡ xs
  unfolding count update
  update_none_all f [] h = refl
  update_none_all f (x ∷ xs) h = ground (arith, update_none_all f xs)

  pub update-none :
      (p : A → Bool) (f : A → A) (xs : List A) → count q xs ≡ 0 → update (λ x. q x && p x) f xs ≡ xs
  unfolding count update
  update-none p f [] h = refl
  update-none p f (x ∷ xs) h = ground (arith, update-none p f xs)

  -- under a unique key `q`, a guarded update rewrites the row that `q` finds, or nothing
  pub update_unique :
      (p : A → Bool) (f : A → A) (xs : List A) {a : A}
      → count q xs ≤ 1
      → first q xs ≡ some a
      → update (λ x. q x && p x) f xs ≡ (if p a then update q (λ _. f a) xs else xs)
  unfolding count update first
  update_unique p f [] u h = cc
  update_unique p f (x ∷ xs) {a} u h =
      ground
        (arith, update-none p f xs, update_unique p f xs {a = a}, update_none_all (λ _. f a) xs)

  pub update-found :
      (f : A → A) (xs : List A) {a : A}
      → count q xs ≤ 1
      → first q xs ≡ some a
      → update q f xs ≡ update q (λ _. f a) xs
  unfolding count update first
  update-found f [] u h = refl
  update-found f (x ∷ xs) {a} u h =
      ground (arith, update_none_all f xs, update_none_all (λ _. f a) xs, update-found f xs {a = a})

  where_none : (xs : List A) → count q xs ≡ 0 → where_rows q xs ≡ []
  unfolding count where_rows
  where_none [] h = refl
  where_none (x ∷ xs) h = ground (arith, where_none xs)

  -- under a unique key, WHERE selects the row that `first` finds, and no other
  pub where_unique :
      (xs : List A)
      → count q xs ≤ 1
      → where_rows q xs ≡ elim (first q xs) as (λ _. List A) [ none ↦ [] | some a ↦ a ∷ [] ]
  unfolding count where_rows first
  where_unique [] h = refl
  where_unique (x ∷ xs) h = ground (arith, where_none xs, where_unique xs)

  first_none_zero :
      (p : A → Bool) (xs : List A) {a : A} → count q xs ≡ 0 → first p xs ≡ some a → q a ≡ false
  unfolding first count
  first_none_zero p [] h k = cc
  first_none_zero p (x ∷ xs) {a} h k = ground (arith, first_none_zero p xs {a = a})

  -- a row that another test finds is the row of its unique key
  pub first_unique :
      (p : A → Bool) (xs : List A) {a : A}
      → count q xs ≤ 1
      → first p xs ≡ some a
      → q a ≡ true
      → first q xs ≡ some a
  unfolding first count
  first_unique p [] u h k = cc
  first_unique p (x ∷ xs) {a} u h k =
      ground (arith, first_unique p xs {a = a}, first_none_zero p xs {a = a})

  -- what a delete leaves of the row that `q` finds
  pub first_kept :
      (p : A → Bool) (xs : List A) {a : A}
      → first q xs ≡ some a
      → p a ≡ false
      → first q (delete p xs) ≡ some a
  unfolding first delete
  first_kept p [] h k = cc
  first_kept p (x ∷ xs) {a} h k = ground (arith, first_kept p xs {a = a})

  pub delete_zero : (p : A → Bool) (xs : List A) → count q xs ≡ 0 → first q (delete p xs) ≡ none
  unfolding first delete count
  delete_zero p [] h = refl
  delete_zero p (x ∷ xs) h = ground (arith, delete_zero p xs)

  pub first_dropped :
      (p : A → Bool) (xs : List A) {a : A}
      → count q xs ≤ 1
      → first q xs ≡ some a
      → p a ≡ true
      → first q (delete p xs) ≡ none
  unfolding first delete count
  first_dropped p [] u h k = cc
  first_dropped p (x ∷ xs) {a} u h k = ground (arith, first_dropped p xs {a = a}, delete_zero p xs)

  -- the row that `q` finds fails a further test that no row passes
  pub first-and-none :
      (p : A → Bool) (xs : List A) {a : A}
      → first (λ x. q x && p x) xs ≡ none
      → first q xs ≡ some a
      → p a ≡ false
  unfolding first
  first-and-none p [] h k = cc
  first-and-none p (x ∷ xs) {a} h k = ground (arith, first-and-none p xs {a = a})

  pub first-and_gone :
      (p : A → Bool) (xs : List A) → first q xs ≡ none → first (λ x. q x && p x) xs ≡ none
  unfolding first
  first-and_gone p [] h = refl
  first-and_gone p (x ∷ xs) h = ground (arith, first-and_gone p xs)

  pub first-append : (xs ys : List A) → first q xs ≡ none → first q (xs ++ ys) ≡ first q ys
  unfolding first
  first-append [] ys h = refl
  first-append (x ∷ xs) ys h = ground (arith, first-append xs ys)

  pub first-append_some :
      (xs ys : List A) {a : A} → first q xs ≡ some a → first q (xs ++ ys) ≡ some a
  unfolding first
  first-append_some [] ys h = cc
  first-append_some (x ∷ xs) ys {a} h = ground (arith, first-append_some xs ys {a = a})

  pub first-holds : (xs : List A) {a : A} → first q xs ≡ some a → q a ≡ true
  unfolding first
  first-holds [] h = cc
  first-holds (x ∷ xs) {a} h = ground (arith, first-holds xs {a = a})
