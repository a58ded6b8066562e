-- ===== src/Db/Migrations/Prefixes.antt =====
-- What a run of `migrate` leaves on the disk.
use starfighter_workflow.Common.{
  ℕ, String, Bool, Option, none, some, List, [], ◌∷◌, ◌++◌, ◌≡◌, refl, ltb, if◌then◌else◌, Result,
  ok, err, arith, sym, ap,
}
use starfighter_workflow.Db.Migrations.{
  Error, Disk, Session, Setting, count_version, insert_version, continue, apply_migration,
  migrate_file, migrate_files, with_schema, with_versions,
}

module _ {S : Type 0} (z : Setting S) where
  -- the files' scripts in order, but those that are recorded, with nothing that fails but a script
  abbrev pub recorded : String → Disk S → Option (Disk S) → Option (Disk S)
  recorded name d none = none
  recorded name d (some tx) = with_versions tx (insert_version name tx.versions)

  abbrev pub executed : String → Disk S → Option String → Option (Disk S)
  executed name d none = none
  executed name d (some body) = recorded name d (with_schema d (z.execute body d.schema))

  abbrev pub unless_seen : String → Disk S → Option ℕ → Option (Disk S)
  unless_seen name d none = none
  unless_seen name d (some n) = if ltb 0 n then some d else executed name d (z.read_file name)

  unfoldable pub apply_file : String → Disk S → Option (Disk S)
  apply_file name d = unless_seen name d (count_version name d.versions)

  abbrev pub after_file : (Disk S → Option (Disk S)) → Option (Disk S) → Option (Disk S)
  after_file f none = none
  after_file f (some d) = f d

  unfoldable pub apply_files : List String → Disk S → Option (Disk S)
  unfolding apply_file
  apply_files [] d = some d
  apply_files (name ∷ names) d = after_file (apply_files names) (apply_file name d)

  -- a file is applied, or fails and leaves the disk as it was
  abbrev pub FileOutcome : String → Disk S → Result Error Unit × Session S → Type 0
  FileOutcome name d (ok a, s) = apply_file name d ≡ some s.disk
  FileOutcome name d (err e, s) = s.disk ≡ d

  module _ (fault : ℕ → Bool) where
    pub migrate_file-outcome :
        (name : String) (s : Session S) → FileOutcome name s.disk (migrate_file fault z name s)
    unfolding migrate_file apply_migration apply_file
    migrate_file-outcome name s = ground arith

    -- the files before the one that fails are applied
    unfoldable pub FilesOutcome : List String → Disk S → Result Error Unit × Session S → Type 0
    FilesOutcome names d (ok a, s) = apply_files names d ≡ some s.disk
    FilesOutcome names d (err e, s) =
        (applied : List String) × (rest : List String) × (names ≡ applied ++ rest)
        × (apply_files applied d ≡ some s.disk)

    FilesOutcome-cons :
        (name : String) (names : List String) (d : Disk S) (r : Result Error Unit × Session S)
        → FileOutcome name d r
        → ((s : Session S) → FilesOutcome names s.disk (migrate_files fault z names s))
        → FilesOutcome (name ∷ names) d (continue (λ _. migrate_files fault z names) r)
    unfolding FilesOutcome apply_files
    FilesOutcome-cons name names d (err e, s) h rest = ([], name ∷ names, refl, ap some (sym h))
    FilesOutcome-cons name names d (ok a, s) h rest =
        joined (migrate_files fault z names s) (rest s)
      where
        joined :
            (r : Result Error Unit × Session S)
            → FilesOutcome names s.disk r
            → FilesOutcome (name ∷ names) d r
        joined (ok a, t) e = rw h e
        joined (err x, t) (xs, ys, split, e) = (name ∷ xs, ys, ap (◌∷◌ name) split, rw h e)

    pub migrate_files-outcome :
        (names : List String) (s : Session S)
        → FilesOutcome names s.disk (migrate_files fault z names s)
    unfolding migrate_files FilesOutcome apply_files
    migrate_files-outcome [] s = refl
    migrate_files-outcome (name ∷ names) s =
        FilesOutcome-cons name names s.disk (migrate_file fault z name s)
          (migrate_file-outcome name s) (migrate_files-outcome names)
