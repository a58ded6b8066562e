-- ===== src/Daemon/Start.antt =====
-- The start of main.go: the flags, the configuration, the database. A start that fails exits.
use starfighter_workflow.Common.{
  List, ℕ, String, Bool, Option, none, some, ◌≡◌, refl, ◌∙◌, true, false, Result, ok, err,
  if◌then◌else◌,
}
use starfighter_workflow.Config.{
  Config, Environment, Machine, Outcome, returned, failed, dead, load,
}
use starfighter_workflow.Config.Reload.{PathLaws, IsValid, load-IsValid, returned_inj}
use starfighter_workflow.Db.Migrations as Migrations
use starfighter_workflow.Db.Migrations.{Disk, Session, Setting, Entry, migration_names, open_db}
use starfighter_workflow.Db.Migrations.Prefixes.{apply_files}
use starfighter_workflow.Db.Migrations.Resume.{ensured}
use starfighter_workflow.Db.Migrations.Runs.{names_of, IsMigrated}
use starfighter_workflow.Db.Migrations.Opening.{
  is_ok, open_db-connections, open_db-IsMigrated, open_db-runs,
}

pub data Start : Type 0 where
  version_printed exited killed : Start
  serving : Config → Start

-- `session_at` is what stands in a data directory before the start; the session is the one that the
-- start leaves, if it came to the database
module _ {S : Type 0} (env : Environment) (fault : ℕ → Bool) (z : Setting S)
    (session_at : String → Session S) where
  abbrev pub after_open :
      Config → Result Migrations.Error Unit × Session S → Start × Option (Session S)
  after_open cfg (ok a, s) = (serving cfg, some s)
  after_open cfg (err e, s) = (exited, some s)

  abbrev pub after_load : Outcome Config × Machine → Start × Option (Session S)
  after_load (returned cfg, m) = after_open cfg (open_db fault z (session_at cfg.data_dir))
  after_load (failed e, m) = (exited, none)
  after_load (dead, m) = (killed, none)

  unfoldable pub start :
      (path : String) → (show_version : Bool) → Machine → Start × Option (Session S)
  start path show_version m =
      if show_version then (version_printed, none) else after_load (load env path m)

  -- A daemon serves with a valid configuration, every migration applied to the database in its
  -- data directory, and one handle; one that exits has no handle open.
  abbrev pub IsReady : Start × Option (Session S) → Type 0
  IsReady (serving cfg, some s) =
      IsValid env.library cfg
      × (apply_files z (names_of z z.entries) (ensured (session_at cfg.data_dir).disk)
          ≡ some s.disk)
      × (s.connections ≡ 1)
  IsReady (serving cfg, none) = ⊥
  IsReady (exited, some s) = s.connections ≡ 0
  IsReady (exited, none) = Unit
  IsReady (version_printed, o) = o ≡ none
  IsReady (killed, o) = o ≡ none

  opened :
      (cfg : Config) (r : Result Migrations.Error Unit × Session S)
      → IsValid env.library cfg
      → IsMigrated z (session_at cfg.data_dir).disk r
      → r.1.connections ≡ (if is_ok r.0 then 1 else 0)
      → IsReady (after_open cfg r)
  opened cfg (ok a, s) valid applied handle = (valid, applied, handle)
  opened cfg (err e, s) valid applied handle = handle

  loaded :
      (r : Outcome Config × Machine)
      → ((cfg : Config) → r.0 ≡ returned cfg → IsValid env.library cfg)
      → ((dir : String) → (session_at dir).connections ≡ 0)
      → IsReady (after_load r)
  loaded (failed e, m) valid unused = tt
  loaded (dead, m) valid unused = refl
  loaded (returned cfg, m) valid unused =
      opened cfg (open_db fault z (session_at cfg.data_dir)) (valid cfg refl)
        (open_db-IsMigrated z fault (session_at cfg.data_dir))
        (open_db-connections z fault (session_at cfg.data_dir) ∙ (rw (unused cfg.data_dir) refl))

  serves :
      (cfg : Config) (r : Result Migrations.Error Unit × Session S)
      → r.0 ≡ ok tt
      → (after_open cfg r).0 ≡ serving cfg
  serves cfg (ok a, s) h = refl
  serves cfg (err e, s) h = absurd (cc)

  loaded_serves :
      (cfg : Config) (r : Outcome Config × Machine)
      → r.0 ≡ returned cfg
      → (open_db fault z (session_at cfg.data_dir)).0 ≡ ok tt
      → (after_load r).0 ≡ serving cfg
  loaded_serves cfg (returned c, m) h good =
      let e : c ≡ cfg = returned_inj h in
      rw e (serves cfg (open_db fault z (session_at cfg.data_dir)) good)
  loaded_serves cfg (failed x, m) h good = absurd (cc)
  loaded_serves cfg (dead, m) h good = absurd (cc)

-- Whatever fails, from data directories with no open handle and given the laws of `filepath.Clean`:
-- a daemon that gets to serve has a configuration whose data directory is given and clean, every
-- migration applied to the database there, and one handle; one that exits has no handle open, and
-- neither has one that only prints its version or is killed over its configuration.
pub start-IsReady :
    {S : Type 0} (env : Environment) (fault : ℕ → Bool) (z : Setting S)
    (session_at : String → Session S) (path : String) (show_version : Bool) (m : Machine)
    → PathLaws env.library
    → ((dir : String) → (session_at dir).connections ≡ 0)
    → IsReady env fault z session_at (start env fault z session_at path show_version m)
unfolding start
start-IsReady env fault z session_at path true m laws unused = refl
start-IsReady env fault z session_at path false m laws unused =
    loaded env fault z session_at (load env path m) (λ cfg h. load-IsValid env path cfg m laws h)
      unused

-- When `Load` gives a configuration, no call of the database fails and every pending script runs on
-- the schema that the ones before it leave, the daemon serves with that configuration.
pub start-serves :
    {S : Type 0} (env : Environment) (fault : ℕ → Bool) (z : Setting S)
    (session_at : String → Session S) (path : String) (m : Machine) (cfg : Config) (es : List Entry)
    (d : Disk S)
    → (load env path m).0 ≡ returned cfg
    → ((n : ℕ) → fault n ≡ false)
    → z.entries ≡ some es
    → apply_files z (migration_names es) (ensured (session_at cfg.data_dir).disk) ≡ some d
    → (start env fault z session_at path false m).0 ≡ serving cfg
unfolding start
start-serves env fault z session_at path m cfg es d loads healthy e h =
    loaded_serves env fault z session_at cfg (load env path m) loads
      (open_db-runs z fault es d (session_at cfg.data_dir) healthy e h)
