-- ===== src/Db/Migrations/Resume.antt =====
-- Runs of `migrate` after one that failed.
use starfighter_workflow.Common.{
  ℕ, String, Bool, true, false, Option, none, some, List, [], ◌∷◌, ◌++◌, ◌≡◌, refl, inl, inr, ltb,
  ◌==◌, eq_iff, arith, Option-cases, sym, ◌∙◌, All,
}
use starfighter_workflow.Sql.Rows.{count, count-append}
use starfighter_workflow.Db.Migrations.{
  Disk, Setting, count_version, insert_version, create_versions,
}
use starfighter_workflow.Db.Migrations.Prefixes.{apply_file, apply_files}

-- a name that schema_migrations has
abbrev is_positive_count : Option ℕ → Bool
is_positive_count none = false
is_positive_count (some n) = ltb 0 n

module _ {S : Type 0} where
  abbrev pub is_recorded : String → Disk S → Bool
  is_recorded name d = is_positive_count (count_version name d.versions)

  -- CREATE TABLE IF NOT EXISTS schema_migrations
  abbrev pub ensured : Disk S → Disk S
  ensured d = record d { versions = create_versions d.versions }

  module _ (z : Setting S) where
    apply_file-recorded :
        (name : String) (d : Disk S) → is_recorded name d ≡ true → apply_file z name d ≡ some d
    unfolding apply_file
    apply_file-recorded name d h = ground arith

    apply_file-is_recorded :
        (name : String) (vs : List String) (d d' : Disk S)
        → d.versions ≡ some vs
        → apply_file z name d ≡ some d'
        → is_recorded name d' ≡ true
    unfolding apply_file count_version insert_version count
    apply_file-is_recorded name vs d d' e h =
        ground (arith, count-append (λ v. v == name) vs (name ∷ []), eq_iff name name)

    apply_file-keeps :
        (x name : String) (vs : List String) (d d' : Disk S)
        → d.versions ≡ some vs
        → apply_file z name d ≡ some d'
        → is_recorded x d ≡ true
        → is_recorded x d' ≡ true
    unfolding apply_file count_version insert_version
    apply_file-keeps x name vs d d' e h r =
        ground (arith, count-append (λ v. v == x) vs (name ∷ []))

    apply_file-versions :
        (name : String) (d d' : Disk S)
        → apply_file z name d ≡ some d'
        → (vs : List String) × (d'.versions ≡ some vs)
    unfolding apply_file count_version insert_version
    apply_file-versions name d d' h = elim (Option-cases d'.versions) [
      | inl e ↦ absurd (ground arith)
      | inr (vs, e) ↦ (vs, e)
    ]

    -- what a run over several files keeps
    apply_files-keeps :
        (x : String) (names : List String) (vs : List String) (d d' : Disk S)
        → d.versions ≡ some vs
        → apply_files z names d ≡ some d'
        → is_recorded x d ≡ true
        → is_recorded x d' ≡ true
    unfolding apply_files
    apply_files-keeps x [] vs d d' e h r = ground arith
    apply_files-keeps x (name ∷ names) vs d d' e h r = elim (Option-cases (apply_file z name d)) [
      | inl failed ↦ absurd (ground arith)
      | inr (m, applied) ↦
          let (ws, f) = apply_file-versions name d m applied in
          apply_files-keeps x names ws m d' f (ground arith)
            (apply_file-keeps x name vs d m e applied r)
    ]

    pub apply_files-versions :
        (names : List String) (vs : List String) (d d' : Disk S)
        → d.versions ≡ some vs
        → apply_files z names d ≡ some d'
        → (ws : List String) × (d'.versions ≡ some ws)
    unfolding apply_files
    apply_files-versions [] vs d d' e h = (vs, ground arith)
    apply_files-versions (name ∷ names) vs d d' e h = elim (Option-cases (apply_file z name d)) [
      | inl failed ↦ absurd (ground arith)
      | inr (m, applied) ↦
          let (ws, f) = apply_file-versions name d m applied in
          apply_files-versions names ws m d' f (ground arith)
    ]

    apply_files-recorded :
        (names : List String) (vs : List String) (d d' : Disk S)
        → d.versions ≡ some vs
        → apply_files z names d ≡ some d'
        → All (λ x. is_recorded x d' ≡ true) names
    unfolding apply_files
    apply_files-recorded [] vs d d' e h = tt
    apply_files-recorded (name ∷ names) vs d d' e h = elim (Option-cases (apply_file z name d)) [
      | inl failed ↦ absurd (ground arith)
      | inr (m, applied) ↦
          let (ws, f) = apply_file-versions name d m applied in
          (
            apply_files-keeps name names ws m d' f (ground arith)
                (apply_file-is_recorded name vs d m e applied),
            apply_files-recorded names ws m d' f (ground arith),
          )
    ]

    -- recorded files are passed over
    apply_files-skip :
        (done rest : List String) (d : Disk S)
        → All (λ x. is_recorded x d ≡ true) done
        → apply_files z (done ++ rest) d ≡ apply_files z rest d
    unfolding apply_files
    apply_files-skip [] rest d r = refl
    apply_files-skip (name ∷ done) rest d (r, rs) =
        rw (apply_file-recorded name d r) (apply_files-skip done rest d rs)

    apply_files-append :
        (xs ys : List String) (d d' : Disk S)
        → apply_files z xs d ≡ some d'
        → apply_files z (xs ++ ys) d ≡ apply_files z ys d'
    unfolding apply_files
    apply_files-append [] ys d d' h = ground arith
    apply_files-append (name ∷ xs) ys d d' h = elim (Option-cases (apply_file z name d)) [
      | inl failed ↦ absurd (ground arith)
      | inr (m, applied) ↦ rw applied (apply_files-append xs ys m d' (ground arith))
    ]

    -- after a part of the files, all of them lead to where they lead at first
    pub apply_files-resume :
        (done rest : List String) (vs : List String) (d d' : Disk S)
        → d.versions ≡ some vs
        → apply_files z done d ≡ some d'
        → apply_files z (done ++ rest) d' ≡ apply_files z (done ++ rest) d
    apply_files-resume done rest vs d d' e h =
        apply_files-skip done rest d' (apply_files-recorded done vs d d' e h)
        ∙ sym (apply_files-append done rest d d' h)
