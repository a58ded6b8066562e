-- ===== src/Machines/Registry.antt =====
-- `FindOrCreate` of machines.go, uninterrupted.
use starfighter_workflow.Common.{
  ℕ, suc, ℤ, pos, String, Bool, true, false, Option, none, some, [], ◌∷◌, ◌++◌, ◌≡◌, ◌==◌, Result,
  ok, err, if◌then◌else◌, trim_space,
}
use starfighter_workflow.Sql.Rows.{first}
use starfighter_workflow.Db.{Db, MachineRow, is_known}
use starfighter_workflow.Db.Exec.{World, IsHealthy}
use starfighter_workflow.Machines.{Error, empty_name, Machine, named, creator, new_machine}

-- the machine that a name has, or a new one with the next id
abbrev registered : String → ℤ → ℕ → Db → Option MachineRow → Result Error (Machine × Bool) × Db
registered name by t d (some m) = (ok (m, false), d)
registered name by t d none = (
  ok (new_machine name by t (pos (suc d.machine_seq)), true),
  record d {
    machine_seq = suc d.machine_seq;
    machines = d.machines ++ new_machine name by t (pos (suc d.machine_seq)) ∷ [];
  },
)

-- what `FindOrCreate` promises
pub registry_spec : String → ℤ → ℕ → Db → Result Error (Machine × Bool) × Db
registry_spec text by t d =
    if trim_space text == ""
    then (err empty_name, d)
    else registered (trim_space text) by t d (first (named (trim_space text)) d.machines)

module _ (text : String) (by : ℤ) (w : World) (healthy : IsHealthy w)
    (known : is_known w.db (creator by) ≡ true) where
  abbrev name : String
  name = trim_space text
