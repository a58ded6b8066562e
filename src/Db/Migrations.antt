-- ===== src/Db/Migrations.antt =====
-- `Open` and `migrate` of internal/db/db.go. The state is what SQLite has committed; a transaction
-- works on a copy, which a commit stores and a rollback drops. At each call of the operating system
-- or of SQLite, `fault` says whether it fails.
pub mod Prefixes
pub mod Resume
pub mod Runs
pub mod Records
pub mod Opening
use mathlib.Core.List.{map}
use starfighter_workflow.Common.{
  ℕ, suc, ◌-◌, String, Bool, not, ◌&&◌, Option, none, some, List, [], ◌∷◌, ◌++◌, ◌==◌, ltb, ◌=ℕ◌,
  if◌then◌else◌, Result, ok, err, has_suffix, text_before,
}
use starfighter_workflow.Sql.Rows.{count, where_rows}
use starfighter_workflow.Sql.Select.{order_by}

pub data Error : Type 0 where
  mkdir_failed open_failed ping_failed create_failed list_failed : Error
  check_failed read_failed begin_failed exec_failed record_failed commit_failed : String → Error

-- `S` is the schema with its rows, `versions` the table schema_migrations, once it is there
pub record Disk (S : Type 0) : Type 0 where
  pub schema : S
  pub versions : Option (List String)

-- `connections` counts the handles that `sql.Open` gave and `Close` has not taken back
pub record Session (S : Type 0) : Type 0 where
  pub disk : Disk S
  pub tick : ℕ
  pub connections : ℕ

-- an entry of the embedded directory
pub record Entry : Type 0 where
  pub name : String
  pub is_dir : Bool

-- The embedded directory, none if it cannot be read, its files, and SQLite: what a script makes of
-- a schema, none for an error.
pub record Setting (S : Type 0) : Type 0 where
  pub entries : Option (List Entry)
  pub read_file : String → Option String
  pub execute : String → S → Option S

abbrev pub is_migration : Entry → Bool
is_migration e = not e.is_dir && has_suffix e.name ".sql"

unfoldable pub migration_names : List Entry → List String
migration_names entries = order_by text_before (map (λ e. e.name) (where_rows is_migration entries))

-- the statements on schema_migrations, which fail while it is not there
unfoldable pub count_version : String → Option (List String) → Option ℕ
count_version name none = none
count_version name (some vs) = some (count (λ v. v == name) vs)

-- `version` is the primary key
unfoldable pub insert_version : String → Option (List String) → Option (List String)
insert_version name none = none
insert_version name (some vs) =
    if count (λ v. v == name) vs =ℕ 0 then some (vs ++ name ∷ []) else none

-- CREATE TABLE IF NOT EXISTS
abbrev pub create_versions : Option (List String) → Option (List String)
create_versions none = some []
create_versions (some vs) = some vs

abbrev pub Act : (S A : Type 0) → Type 0
Act S A = Session S → Result Error A × Session S

module _ {S : Type 0} where
  abbrev pub continue :
      {A B : Type 0} → (A → Act S B) → Result Error A × Session S → Result Error B × Session S
  continue k (ok a, s) = k a s
  continue k (err e, s) = (err e, s)

  infixl 5 ◌>>=◌ ◌>>◌
  abbrev pub ◌>>=◌ : {A B : Type 0} → Act S A → (A → Act S B) → Act S B
  (m >>= k) s = continue k (m s)

  abbrev pub ◌>>◌ : {A B : Type 0} → Act S A → Act S B → Act S B
  m >> k = m >>= λ _. k

  abbrev pub done : {A : Type 0} → A → Act S A
  done a s = (ok a, s)

  abbrev pub or_fail : {A : Type 0} → Error → Option A → Act S A
  or_fail bad none s = (err bad, s)
  or_fail bad (some a) s = (ok a, s)

  abbrev pub elapse : Session S → Session S
  elapse s = record s { tick = suc s.tick }

  -- the schema and the versions of a transaction after a statement of it
  abbrev pub with_schema : Disk S → Option S → Option (Disk S)
  with_schema tx none = none
  with_schema tx (some x) = some (record tx { schema = x })

  abbrev pub with_versions : Disk S → Option (List String) → Option (Disk S)
  with_versions tx none = none
  with_versions tx (some vs) = some (record tx { versions = some vs })

  abbrev pub connected : Session S → Session S
  connected s = record s { connections = suc s.connections }

  -- `Close`
  abbrev pub closed : {A : Type 0} → Result Error A × Session S → Result Error A × Session S
  closed (r, s) = (r, record s { connections = s.connections - 1 })

  -- a call that fails closes the handle
  abbrev pub or_close : {A : Type 0} → Result Error A × Session S → Result Error A × Session S
  or_close (ok a, s) = (ok a, s)
  or_close (err e, s) = closed (err e, s)

  module _ (fault : ℕ → Bool) where
    -- a call that may fail, and reads what is committed
    abbrev pub call : {A : Type 0} → Error → (Disk S → Option A) → Act S A
    call bad f s = if fault s.tick then (err bad, elapse s) else or_fail bad (f s.disk) (elapse s)

    -- a call that stores a state of the disk
    abbrev pub store : Error → (Disk S → Disk S) → Act S Unit
    store bad f s =
        if fault s.tick then (err bad, elapse s) else (ok tt, elapse (record s { disk = f s.disk }))

    module _ (z : Setting S) where
      -- the transaction of one file
      pub apply_migration : String → String → Act S Unit
      apply_migration name body = do
        tx ← call (begin_failed name) some
        tx ← call (exec_failed name) (λ _. with_schema tx (z.execute body tx.schema))
        tx ← call (record_failed name) (λ _. with_versions tx (insert_version name tx.versions))
        store (commit_failed name) (λ _. tx)

      -- one round of the loop
      pub migrate_file : String → Act S Unit
      unfolding apply_migration
      migrate_file name = do
        seen ← call (check_failed name) (λ d. count_version name d.versions)
        if ltb 0 seen
            then done tt
            else do body ← or_fail (read_failed name) (z.read_file name); apply_migration name body

      pub migrate_files : List String → Act S Unit
      unfolding migrate_file
      migrate_files [] = done tt
      migrate_files (name ∷ names) = do migrate_file name; migrate_files names

      pub migrate : Act S Unit
      unfolding migrate_files
      migrate = do
        store create_failed (λ d. record d { versions = create_versions d.versions })
        entries ← or_fail list_failed z.entries
        migrate_files (migration_names entries)

      pub open_db : Act S Unit
      unfolding migrate
      open_db = do
        call mkdir_failed (λ d. some tt)
        call open_failed (λ d. some tt)
        λ s. or_close ((do call ping_failed (λ d. some tt); migrate) (connected s))
