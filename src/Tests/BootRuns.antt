-- ===== src/Tests/BootRuns.antt =====
-- Runs of `Open`, of its migrations and of the configuration, with some calls that fail.
use starfighter_workflow.Common.{
  ℕ, String, Bool, false, none, some, List, [], ◌∷◌, ◌++◌, ◌≡◌, refl, ◌=ℕ◌, ok, has_suffix,
  text_before,
}
use starfighter_workflow.Sql.Rows.{count, where_rows}
use starfighter_workflow.Sql.Select.{insert_by, order_by}
use starfighter_workflow.Db.Migrations.{
  Disk, Session, Setting, Entry, migrate, migration_names, count_version, insert_version,
}
use starfighter_workflow.Db.Migrations.Prefixes.{apply_file, apply_files}
use starfighter_workflow.Db.Migrations.Resume.{ensured}
use starfighter_workflow.Db.Migrations.Runs.{
  IsMigrated, left_by, migrate-IsMigrated, migrate-resumes,
}
use starfighter_workflow.Common.{◌↔◌}
use starfighter_workflow.Daemon.Stop.{signal, server_error, main, IsClosed, main-IsClosed}
use starfighter_workflow.Daemon.Start.{exited, serving, start, IsReady, start-IsReady, start-serves}
use starfighter_workflow.Tests.ConfigRuns.{
  sound_machine, booted, shop_config, shop_loads, library-PathLaws,
}

abbrev file : String → Entry
file name = record { name = name; is_dir = false }

abbrev entries : List Entry
entries = file "0002_more.sql" ∷ file "0001_init.sql" ∷ file "notes.txt" ∷ []

-- a script is its own name, and a schema is the list of the scripts that ran
abbrev setting : Setting (List String)
setting = record {
  entries = some entries;
  read_file = λ name. some name;
  execute = λ body schema. some (schema ++ body ∷ []);
}

abbrev blank : Session (List String)
blank = record { disk = record { schema = []; versions = none }; tick = 0; connections = 0 }

-- the commit of the second script fails
abbrev second_commit_fails : ℕ → Bool
second_commit_fails n = n =ℕ 10

abbrev never : ℕ → Bool
never n = false

abbrev both : Disk (List String)
both = record {
  schema = "0001_init.sql" ∷ "0002_more.sql" ∷ [];
  versions = some ("0001_init.sql" ∷ "0002_more.sql" ∷ []);
}

both_apply : apply_files setting (migration_names entries) (ensured blank.disk) ≡ some both
unfolding apply_files apply_file migration_names has_suffix text_before order_by insert_by
    where_rows count_version insert_version count
both_apply = refl

migrate-IsMigrated_example :
    IsMigrated setting blank.disk (migrate second_commit_fails setting blank)
migrate-IsMigrated_example = migrate-IsMigrated setting second_commit_fails blank

migrate-resumes_example :
    left_by (migrate never setting (migrate second_commit_fails setting blank).1) ≡ (ok tt, both)
migrate-resumes_example =
    migrate-resumes setting second_commit_fails never entries blank both refl both_apply (λ n. refl)

-- every data directory is new
abbrev new_directory : String → Session (List String)
new_directory dir = blank

start-IsReady_example :
    IsReady sound_machine second_commit_fails setting new_directory
      (start sound_machine second_commit_fails setting new_directory "config.json" false booted)
start-IsReady_example =
    start-IsReady sound_machine second_commit_fails setting new_directory "config.json" false booted
      library-PathLaws (λ dir. refl)

main-IsClosed_example :
    IsClosed (main sound_machine never setting new_directory "config.json" false booted signal).1
    × (((main sound_machine never setting new_directory "config.json" false booted signal).0
          ≡ some 1)
        ↔ ((start sound_machine never setting new_directory "config.json" false booted).0 ≡ exited))
    × (main sound_machine never setting new_directory "config.json" false booted server_error
        ≡ main sound_machine never setting new_directory "config.json" false booted signal)
main-IsClosed_example =
    main-IsClosed sound_machine never setting new_directory "config.json" false booted signal
      library-PathLaws (λ dir. refl)

start-serves_example :
    (start sound_machine never setting new_directory "config.json" false booted).0
    ≡ serving shop_config
start-serves_example =
    start-serves sound_machine never setting new_directory "config.json" booted shop_config entries
      both shop_loads (λ n. refl) refl both_apply
