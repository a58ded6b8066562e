-- ===== src/Db/Keys.antt =====
-- INTEGER PRIMARY KEY AUTOINCREMENT.
use starfighter_workflow.Common.{
  ℕ, suc, ◌+◌, ◌≤◌, ℤ, pos, ◌=ℤ◌, =ℤ_iff, Bool, false, List, [], ◌∷◌, ◌++◌, ◌≡◌, refl, sym, ap, ◌∙◌,
  arith, All, All-append, Bool-cases, inl, inr, if◌then◌else◌,
}
use starfighter_workflow.Sql.Rows.{
  count, update, where_rows, count-update, count-append, count-where-le, All-update, All-where,
}

-- an id that the key has handed out, of which `seq` is the largest
abbrev pub IsIssued : ℕ → ℤ → Type 0
IsIssued seq id = (n : ℕ) × (id ≡ pos n) × (n ≤ seq)

pub record IsKeyed {A : Type 0} (key : A → ℤ) (seq : ℕ) (rows : List A) : Type 0 where
  pub unique : (id : ℤ) → count (λ r. key r =ℤ id) rows ≤ 1
  pub issued : All (λ r. IsIssued seq (key r)) rows

not-issued : (seq : ℕ) (id : ℤ) → IsIssued seq id → (id =ℤ pos (suc seq)) ≡ false
unfolding ◌=ℤ◌
not-issued seq id (n, e, le) = rw e (ground arith)

module _ {A : Type 0} (key : A → ℤ) (seq : ℕ) where
  pub count-fresh :
      (rows : List A)
      → All (λ r. IsIssued seq (key r)) rows
      → count (λ r. key r =ℤ pos (suc seq)) rows ≡ 0
  unfolding count
  count-fresh [] h = refl
  count-fresh (r ∷ rows) (i, h) = rw (not-issued seq (key r) i) (omega (arith, count-fresh rows h))

  IsIssued-suc :
      (rows : List A)
      → All (λ r. IsIssued seq (key r)) rows
      → All (λ r. IsIssued (suc seq) (key r)) rows
  IsIssued-suc [] h = tt
  IsIssued-suc (r ∷ rows) ((n, e, le), h) = ((n, e, omega arith), IsIssued-suc rows h)

  count-one : (r : A) (id : ℤ) → count (λ r. key r =ℤ id) (r ∷ []) ≡ (if key r =ℤ id then 1 else 0)
  unfolding count
  count-one r id = omega arith

  -- the new row is the only one with its id
  unique-append :
      (rows : List A) (r : A) (id : ℤ)
      → IsKeyed key seq rows
      → key r ≡ pos (suc seq)
      → count (λ r. key r =ℤ id) rows + (if key r =ℤ id then 1 else 0) ≤ 1
  unique-append rows r id k e = elim (Bool-cases (key r =ℤ id)) [
    | inl hit ↦
        let same : id ≡ pos (suc seq) = sym ((=ℤ_iff _ _).0 hit) ∙ e in
        rw (hit, same) (omega (arith, count-fresh rows k.issued))
    | inr miss ↦ rw miss (omega (arith, k.unique id))
  ]

  pub IsKeyed-append :
      (rows : List A) (r : A)
      → IsKeyed key seq rows
      → key r ≡ pos (suc seq)
      → IsKeyed key (suc seq) (rows ++ r ∷ [])
  IsKeyed-append rows r k e = record {
    unique = λ id. rw (count-append, count-one r id) (unique-append rows r id k e);
    issued =
        All-append _ rows (r ∷ []) (IsIssued-suc rows k.issued) ((suc seq, e, omega arith), tt);
  }

  pub IsKeyed-update :
      (p : A → Bool) (f : A → A) (rows : List A)
      → ((r : A) → key (f r) ≡ key r)
      → IsKeyed key seq rows
      → IsKeyed key seq (update p f rows)
  IsKeyed-update p f rows same k = record {
    unique = λ id.
        rw (count-update (λ r. key r =ℤ id) p f rows (λ r _. ap (λ i. i =ℤ id) (same r)))
          (k.unique id);
    issued = All-update _ p f rows (λ r _ h. rw (same r) h) k.issued;
  }

  pub IsKeyed-where :
      (p : A → Bool) (rows : List A) → IsKeyed key seq rows → IsKeyed key seq (where_rows p rows)
  IsKeyed-where p rows k = record {
    unique = λ id. omega (arith, count-where-le (λ r. key r =ℤ id) p rows, k.unique id);
    issued = All-where _ p rows k.issued;
  }
