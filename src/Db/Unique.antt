-- ===== src/Db/Unique.antt =====
-- The constraints UNIQUE and REFERENCES, and what an INSERT or an UPDATE leaves of them.
use mathlib.Core.Bool.{false≢true}
use starfighter_workflow.Common.{
  ◌+◌, ◌≤◌, String, Bool, true, not, Option, none, some, List, [], ◌∷◌, ◌++◌, ◌≡◌, refl, ◌==◌,
  eq_iff, arith, Bool-cases, Option-cases, inl, inr, if◌then◌else◌, is_some,
}
use starfighter_workflow.Sql.Rows.{
  first, count, update, count-ext, count-append, count-not_found, first-append_some, first-update,
}
use starfighter_workflow.Sql.Collate.{nocase_eq, nocase_eq-fold}

module _ {A : Type 0} (p : A → Bool) (rows : List A) (new : A) where
  count-one_more : count p (rows ++ new ∷ []) ≡ count p rows + (if p new then 1 else 0)
  unfolding count
  count-one_more = rw count-append (omega arith)

  -- a row that a foreign key needs is there after an INSERT
  pub is_some-append : is_some (first p rows) ≡ true → is_some (first p (rows ++ new ∷ [])) ≡ true
  is_some-append h = elim (Option-cases (first p rows)) [
    | inl missing ↦ absurd (false≢true (rw missing at h))
    | inr (a, found) ↦ rw (first-append_some p rows (new ∷ []) found)
  ]

pub is_none : {A : Type 0} (o : Option A) → not (is_some o) ≡ true → o ≡ none
is_none none h = refl
is_none (some a) h = absurd (false≢true h)

pub is_some-update :
    {A : Type 0} (q p : A → Bool) (f : A → A) (rows : List A)
    → ((x : A) → p x ≡ true → q (f x) ≡ q x)
    → is_some (first q rows) ≡ true
    → is_some (first q (update p f rows)) ≡ true
is_some-update q p f rows h k = elim (Option-cases (first q rows)) [
  | inl missing ↦ absurd (false≢true (rw missing at k))
  | inr (a, found) ↦ rw (first-update q p f rows h, found)
]

module _ {A : Type 0} (key : A → String) (rows : List A) (new : A) where
  -- UNIQUE COLLATE NOCASE
  pub IsNamed-append :
      ((s : String) → count (λ r. nocase_eq (key r) s) rows ≤ 1)
      → first (λ r. nocase_eq (key r) (key new)) rows ≡ none
      → (s : String) → count (λ r. nocase_eq (key r) s) (rows ++ new ∷ []) ≤ 1
  IsNamed-append h free s = elim (Bool-cases (nocase_eq (key new) s)) [
    | inr other ↦
        rw (count-one_more (λ r. nocase_eq (key r) s) rows new, other) (omega (arith, h s))
    | inl same ↦
        rw (count-one_more (λ r. nocase_eq (key r) s) rows new, same)
          (omega (
            arith,
            count-ext (λ r. nocase_eq (key r) s) (λ r. nocase_eq (key r) (key new)) rows
                (λ r. nocase_eq-fold (key r) s (key new) same),
            count-not_found (λ r. nocase_eq (key r) (key new)) rows free,
          ))
  ]

  -- UNIQUE, or a primary key that is a text
  pub IsUnique-append :
      ((s : String) → count (λ r. key r == s) rows ≤ 1)
      → first (λ r. key r == key new) rows ≡ none
      → (s : String) → count (λ r. key r == s) (rows ++ new ∷ []) ≤ 1
  IsUnique-append h free s = elim (Bool-cases (key new == s)) [
    | inr other ↦ rw (count-one_more (λ r. key r == s) rows new, other) (omega (arith, h s))
    | inl same ↦
        let e : key new ≡ s = (eq_iff _ _).0 same in
        rw (count-one_more (λ r. key r == s) rows new, same, ← e)
          (omega (arith, count-not_found (λ r. key r == key new) rows free))
  ]
