-- ===== src/Db/Migrations/Records.antt =====
-- Which scripts a run of `migrate` executes, and what it records.
use mathlib.Core.List.{append-nil, append_assoc}
use starfighter_workflow.Common.{
  ℕ, String, true, false, Option, none, some, List, [], ◌∷◌, ◌++◌, ◌≡◌, refl, ◌⊎◌, inl, inr, ◌==◌,
  eq_iff, ◌=ℕ◌, arith, Bool-cases, Option-cases, sym, ◌∙◌, ap,
}
use starfighter_workflow.Sql.Rows.{count, where_rows, count-append}
use starfighter_workflow.Db.Migrations.{Disk, Setting, count_version, insert_version}
use starfighter_workflow.Db.Migrations.Prefixes.{apply_file, apply_files}

abbrev pub occurrences : String → List String → ℕ
occurrences name = count (λ v. v == name)

-- no name stands twice
abbrev pub IsDistinct : List String → Type 0
IsDistinct [] = Unit
IsDistinct (name ∷ names) = (occurrences name names ≡ 0) × IsDistinct names

-- the names that are not recorded
unfoldable pub pending : List String → List String → List String
pending vs names = where_rows (λ name. occurrences name vs =ℕ 0) names

pending-snoc :
    (name : String) (vs names : List String)
    → occurrences name names ≡ 0
    → pending (vs ++ name ∷ []) names ≡ pending vs names
unfolding pending where_rows count
pending-snoc name vs [] h = refl
pending-snoc name vs (x ∷ names) h = ground (
  arith,
  count-append (λ v. v == x) vs (name ∷ []),
  eq_iff name x,
  eq_iff x name,
  pending-snoc name vs names (ground (arith)),
)

module _ {S : Type 0} (z : Setting S) where
  -- the scripts of the files, one after the other
  abbrev execute_read : S → Option String → Option S
  execute_read x none = none
  execute_read x (some body) = z.execute body x

  abbrev then_execute : (S → Option S) → Option S → Option S
  then_execute f none = none
  then_execute f (some x) = f x

  unfoldable pub run_scripts : List String → S → Option S
  run_scripts [] x = some x
  run_scripts (name ∷ names) x =
      then_execute (run_scripts names) (execute_read x (z.read_file name))

  abbrev pub IsRecord : List String → List String → Disk S → Disk S → Type 0
  IsRecord vs names d d' =
      (d'.versions ≡ some (vs ++ pending vs names))
      × (run_scripts (pending vs names) d.schema ≡ some d'.schema)

  -- one file: recorded before, or executed and recorded now
  apply_file-cases :
      (name : String) (vs : List String) (d d' : Disk S)
      → d.versions ≡ some vs
      → apply_file z name d ≡ some d'
      → (((occurrences name vs =ℕ 0) ≡ false) × (d' ≡ d))
        ⊎ (((occurrences name vs =ℕ 0) ≡ true)
            × (d'.versions ≡ some (vs ++ name ∷ []))
            × (execute_read d.schema (z.read_file name) ≡ some d'.schema))
  unfolding apply_file count_version insert_version
  apply_file-cases name vs d d' e h = elim (Bool-cases (occurrences name vs =ℕ 0)) [
    | inl new ↦ inr (new, ground arith, ground arith)
    | inr old ↦ inl (old, ground arith)
  ]

  recorded_first :
      (name : String) (names vs : List String) (d m d' : Disk S)
      → ((occurrences name vs =ℕ 0) ≡ true)
      → occurrences name names ≡ 0
      → (execute_read d.schema (z.read_file name) ≡ some m.schema)
      → IsRecord (vs ++ name ∷ []) names m d'
      → IsRecord vs (name ∷ names) d d'
  unfolding run_scripts
  recorded_first name names vs d m d' new once ran (versions, scripts) =
      let e : pending vs (name ∷ names) ≡ name ∷ pending vs names =
        unfold pending in unfold where_rows in rw (new) refl in
      (
        rw e (
            versions
            ∙ ap some (rw (pending-snoc name vs names once) (append_assoc vs (name ∷ []) _))),
        rw (e, ran, sym (pending-snoc name vs names once)) scripts,
      )

  recorded_before :
      (name : String) (names vs : List String) (d d' : Disk S)
      → ((occurrences name vs =ℕ 0) ≡ false)
      → IsRecord vs names d d'
      → IsRecord vs (name ∷ names) d d'
  recorded_before name names vs d d' old r =
      let e : pending vs (name ∷ names) ≡ pending vs names =
        unfold pending in unfold where_rows in rw old refl in
      rw e r

  pub apply_files-IsRecord :
      (names vs : List String) (d d' : Disk S)
      → d.versions ≡ some vs
      → IsDistinct names
      → apply_files z names d ≡ some d'
      → IsRecord vs names d d'
  unfolding apply_files
  apply_files-IsRecord [] vs d d' e distinct h =
      let none_pending : pending vs [] ≡ [] = unfold pending in unfold where_rows in refl in
      (
        rw none_pending (ground (arith, append-nil vs)),
        rw none_pending (unfold run_scripts in ground arith),
      )
  apply_files-IsRecord (name ∷ names) vs d d' e (once, distinct) h =
      elim (Option-cases (apply_file z name d)) [
        | inl failed ↦ absurd (ground arith)
        | inr (m, applied) ↦ elim (apply_file-cases name vs d m e applied) [
          | inl (old, same) ↦
              recorded_before name names vs d d' old
                (apply_files-IsRecord names vs d d' e distinct (ground arith))
          | inr (new, versions, ran) ↦
              recorded_first name names vs d m d' new once ran
                (apply_files-IsRecord names (vs ++ name ∷ []) m d' versions distinct (ground arith))
        ]
      ]
