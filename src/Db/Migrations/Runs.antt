-- ===== src/Db/Migrations/Runs.antt =====
-- `migrate` and `Open` as a whole: what is left when they fail, and what a later run does.
use starfighter_workflow.Common.{
  ℕ, suc, String, Bool, false, Option, none, some, List, [], ◌∷◌, ◌++◌, ◌≡◌, refl, ◌⊎◌, inl, inr,
  Result, ok, err, arith, Bool-cases, Option-cases, sym, ◌∙◌, ap,
}
use mathlib.Core.Path.{subst}
use mathlib.Core.List.{append-nil}
use starfighter_workflow.Db.Migrations.{
  Error, Disk, Session, Setting, Entry, continue, apply_migration, migrate_file, migrate_files,
  migrate, migration_names, create_versions, or_fail,
}
use starfighter_workflow.Db.Migrations.Prefixes.{
  apply_file, apply_files, FileOutcome, FilesOutcome, migrate_file-outcome, migrate_files-outcome,
}
use starfighter_workflow.Db.Migrations.Resume.{ensured, apply_files-versions, apply_files-resume}

-- the result of a run and the disk that it leaves
abbrev pub left_by : {S : Type 0} → Result Error Unit × Session S → Result Error Unit × Disk S
left_by (r, s) = (r, s.disk)

module _ {S : Type 0} (z : Setting S) where
  -- the names of the files, if the directory can be read
  abbrev pub names_of : Option (List Entry) → List String
  names_of none = []
  names_of (some entries) = migration_names entries

  -- The disk after a run: untouched, or with schema_migrations and the first files applied; with all
  -- of them if the run succeeds.
  abbrev pub IsMigrated : Disk S → Result Error Unit × Session S → Type 0
  IsMigrated d (ok a, s) = apply_files z (names_of z.entries) (ensured d) ≡ some s.disk
  IsMigrated d (err e, s) =
      (s.disk ≡ d)
      ⊎ ((applied : List String) × (rest : List String) × (names_of z.entries ≡ applied ++ rest)
          × (apply_files z applied (ensured d) ≡ some s.disk))

  ensured-versions : (d : Disk S) → (vs : List String) × ((ensured d).versions ≡ some vs)
  ensured-versions d = elim (Option-cases d.versions) [
    | inl e ↦ ([], ap create_versions e)
    | inr (vs, e) ↦ (vs, ap create_versions e)
  ]

  ensured-same : (d : Disk S) (vs : List String) → d.versions ≡ some vs → ensured d ≡ d
  ensured-same d vs e = ap (λ v. record d { versions = v }) (ap create_versions e ∙ sym e)

  module _ (fault : ℕ → Bool) where
    migrate_names :
        (names : List String) (d : Disk S) (r : Result Error Unit × Session S)
        → names_of z.entries ≡ names
        → FilesOutcome z fault names (ensured d) r
        → IsMigrated d r
    unfolding FilesOutcome
    migrate_names names d (ok a, s) e h = rw e h
    migrate_names names d (err x, s) e (applied, rest, split, h) = inr (applied, rest, e ∙ split, h)

    listed :
        (es : Option (List Entry)) (d : Disk S) (s : Session S)
        → z.entries ≡ es
        → s.disk ≡ ensured d
        → IsMigrated d (
            continue
              (λ e. migrate_files fault z (migration_names e))
              (or_fail Error.list_failed es s))
    listed none d s e h = inr ([], [], ap names_of e, unfold apply_files in ap some (sym h))
    listed (some es) d s e h = migrate_names (migration_names es) d _ (ap names_of e) (
        subst
          (λ x.
            FilesOutcome z fault (migration_names es) x
              (migrate_files fault z (migration_names es) s))
          (h) (migrate_files-outcome z fault (migration_names es) s))

    -- Whatever fails, `migrate` leaves the disk as it was, or with the table schema_migrations and the
    -- first of the files applied in their order, each with its record; a run that succeeds has
    -- applied all of them.
    pub migrate-IsMigrated : (s : Session S) → IsMigrated s.disk (migrate fault z s)
    unfolding migrate
    migrate-IsMigrated s = elim (Bool-cases (fault s.tick)) [
      | inl failed ↦ rw failed (inl refl)
      | inr created ↦ rw created (listed z.entries s.disk _ refl refl)
    ]

    module _ (healthy : (n : ℕ) → fault n ≡ false) where
      migrate_file-runs :
          (name : String) (s : Session S) (d : Disk S)
          → apply_file z name s.disk ≡ some d
          → (migrate_file fault z name s).0 ≡ ok tt
      unfolding migrate_file apply_migration apply_file
      migrate_file-runs name s d h = ground (
        arith,
        healthy s.tick,
        healthy (suc s.tick),
        healthy (suc (suc s.tick)),
        healthy (suc (suc (suc s.tick))),
        healthy (suc (suc (suc (suc s.tick)))),
      )

      file_then :
          (name : String) (names : List String) (d : Disk S) (r : Result Error Unit × Session S)
          (final : Disk S)
          → FileOutcome z name d r
          → apply_files z (name ∷ names) d ≡ some final
          → r.0 ≡ ok tt
          → ((s : Session S)
              → apply_files z names s.disk ≡ some final
              → (migrate_files fault z names s).0 ≡ ok tt)
          → (continue (λ _. migrate_files fault z names) r).0 ≡ ok tt
      unfolding apply_files
      file_then name names d (ok a, s) final applied h e rest = rest s (ground arith)
      file_then name names d (err x, s) final applied h e rest = absurd (cc)

      migrate_files-runs :
          (names : List String) (s : Session S) (d : Disk S)
          → apply_files z names s.disk ≡ some d
          → (migrate_files fault z names s).0 ≡ ok tt
      unfolding migrate_files
      migrate_files-runs [] s d h = refl
      migrate_files-runs (name ∷ names) s d h = elim (Option-cases (apply_file z name s.disk)) [
        | inl failed ↦ absurd (unfold apply_files in ground arith)
        | inr (m, applied) ↦
            file_then name names s.disk (migrate_file fault z name s) d
              (migrate_file-outcome z fault name s) h (migrate_file-runs name s m applied)
              (λ t e. migrate_files-runs names t d e)
      ]

      listed_runs :
          (es : List Entry) (o : Option (List Entry)) (d : Disk S) (s : Session S)
          → o ≡ some es
          → apply_files z (migration_names es) s.disk ≡ some d
          → (continue
              (λ e. migrate_files fault z (migration_names e))
              (or_fail Error.list_failed o s)).0
            ≡ ok tt
      listed_runs es o d s e h = rw e (migrate_files-runs (migration_names es) s d h)

      pub migrate-runs :
          (es : List Entry) (d : Disk S) (s : Session S)
          → z.entries ≡ some es
          → apply_files z (migration_names es) (ensured s.disk) ≡ some d
          → (migrate fault z s).0 ≡ ok tt
      unfolding migrate
      migrate-runs es d s e h = rw (healthy s.tick) (listed_runs es z.entries d _ e h)

      reached :
          (es : List Entry) (d e : Disk S) (r : Result Error Unit × Session S)
          → names_of z.entries ≡ migration_names es
          → apply_files z (migration_names es) (ensured e) ≡ some d
          → r.0 ≡ ok tt
          → IsMigrated e r
          → left_by r ≡ (ok tt, d)
      reached es d e (ok a, s) same h good m = ground (arith, same)
      reached es d e (err x, s) same h good m = absurd (cc)

      migrate-reaches :
          (es : List Entry) (d : Disk S) (s : Session S)
          → z.entries ≡ some es
          → apply_files z (migration_names es) (ensured s.disk) ≡ some d
          → left_by (migrate fault z s) ≡ (ok tt, d)
      migrate-reaches es d s e h =
          reached es d s.disk (migrate fault z s) (ap names_of e) h (migrate-runs es d s e h)
            (migrate-IsMigrated s)

  -- where all files lead is the same after a run that applied some of them
  again :
      (done rest names : List String) (d d' : Disk S)
      → names ≡ done ++ rest
      → apply_files z done (ensured d) ≡ some d'
      → apply_files z names (ensured d') ≡ apply_files z names (ensured d)
  again done rest names d d' split h =
      let (vs, e) = ensured-versions d in
      let (ws, f) = apply_files-versions z done vs (ensured d) d' e h in
      rw (split, ensured-same d' ws f) (apply_files-resume z done rest vs (ensured d) d' e h)

  again_after :
      (d : Disk S) (r : Result Error Unit × Session S)
      → IsMigrated d r
      → apply_files z (names_of z.entries) (ensured r.1.disk)
        ≡ apply_files z (names_of z.entries) (ensured d)
  again_after d (ok a, s) h =
      again (names_of z.entries) [] (names_of z.entries) d s.disk (sym (append-nil _)) h
  again_after d (err x, s) (inl same) =
      ap (λ e. apply_files z (names_of z.entries) (ensured e)) same
  again_after d (err x, s) (inr (done, rest, split, h)) =
      again done rest (names_of z.entries) d s.disk split h

-- Let `migrate` fail anywhere in a first run, or not at all. If every script runs on the schema that
-- the ones before it leave, from the disk before the first run, then a later run in which nothing
-- fails succeeds, and leaves the disk that a single undisturbed run leaves.
pub migrate-resumes :
    {S : Type 0} (z : Setting S) (first later : ℕ → Bool) (es : List Entry) (s : Session S)
    (d : Disk S)
    → z.entries ≡ some es
    → apply_files z (migration_names es) (ensured s.disk) ≡ some d
    → ((n : ℕ) → later n ≡ false)
    → left_by (migrate later z (migrate first z s).1) ≡ (ok tt, d)
migrate-resumes z first later es s d e h healthy =
    migrate-reaches z later healthy es d (migrate first z s).1 e (
      subst
        (λ names.
          apply_files z names (ensured (migrate first z s).1.disk)
          ≡ apply_files z names (ensured s.disk))
        (ap (names_of z) e)
        (again_after z s.disk (migrate first z s) (migrate-IsMigrated z first s))
      ∙ h)
