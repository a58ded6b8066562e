-- ===== src/Machines.antt =====
-- internal/machines/machines.go: the accumulator of known machines.
pub mod Escape
pub mod Search
pub mod Found
pub mod Kept
pub mod Steps
pub mod Registry
use starfighter_workflow.Common.{
  ℕ, suc, ℤ, pos, is_positive, String, Bool, true, false, not, ◌&&◌, ◌||◌, Option, none, some, List,
  [], ◌∷◌, ◌++◌, ◌==◌, leb, ltb, if◌then◌else◌, is_some, take, trim_space, Result, ok, err,
}
use starfighter_workflow.Sql.Rows.{first, where_rows}
use starfighter_workflow.Sql.Select.{order_by}
use starfighter_workflow.Sql.Collate.{nocase_eq, nocase_before}
use starfighter_workflow.Sql.Like.{like}
use starfighter_workflow.Db.{Db, MachineRow, is_machine, is_known}
use starfighter_workflow.Db.Exec.{
  Prog, ret, raise, ◌>>=◌, ◌>>◌, inspect, now, commit_if, statement, query,
}
use starfighter_workflow.Machines.Escape.{pattern_of}

-- `unique_violation` is the driver's UNIQUE error inside `FindOrCreate`; `storage` any other.
pub data Error : Type 0 where
  not_found empty_name unique_violation storage : Error

abbrev pub Machine : Type 0
Machine = MachineRow

-- `scan`, of a row with NULL as `none`
abbrev scan : MachineRow → Machine
scan m = record { id = m.id; name = m.name; created_by = m.created_by; created_at = m.created_at }

pub found_or : Option MachineRow → Prog Error Machine
found_or none = raise not_found
found_or (some m) = ret (scan m)

abbrev pub named : String → MachineRow → Bool
named name m = nocase_eq m.name name

pub find_by_name : String → Prog Error Machine
unfolding found_or
find_by_name name = do row ← query storage (λ d. first (named name) d.machines); found_or row

pub get : ℤ → Prog Error Machine
unfolding found_or
get id = do row ← query storage (λ d. first (is_machine id) d.machines); found_or row

-- a caller's id that is not positive is stored as NULL
abbrev pub creator : ℤ → Option ℤ
creator id = if is_positive id then some id else none

abbrev pub new_machine : String → ℤ → ℕ → ℤ → MachineRow
new_machine name created_by t id = record {
  id = id;
  name = name;
  created_by = creator created_by;
  created_at = t;
}

-- The INSERT of `FindOrCreate`: UNIQUE COLLATE NOCASE on the name, a foreign key to users.
unfoldable pub insert_machine : String → ℤ → ℕ → Db → Result Error Machine × Db
insert_machine name created_by t d =
    let new = new_machine name created_by t (pos (suc d.machine_seq)) in
    commit_if (not (is_some (first (named name) d.machines)) && is_known d (creator created_by))
      (if is_some (first (named name) d.machines) then unique_violation else storage) new
      (record d { machine_seq = suc d.machine_seq; machines = d.machines ++ new ∷ [] }) d

-- what `FindOrCreate` does with the result of its INSERT
after_insert : String → Result Error Machine → Prog Error (Machine × Bool)
after_insert name (ok m) = ret (m, true)
after_insert name (err unique_violation) =
    inspect (find_by_name name) λ r. elim r [ ok m ↦ ret (m, false) | err e ↦ raise storage ]
after_insert name (err e) = raise storage

-- … and with the result of looking the name up first
after_find : String → ℤ → Result Error Machine → Prog Error (Machine × Bool)
unfolding after_insert
after_find name created_by (ok m) = ret (m, false)
after_find name created_by (err not_found) = do
  t ← now
  inspect (statement storage (insert_machine name created_by t)) (after_insert name)
after_find name created_by (err e) = raise e

-- the machine, and whether it was created
pub find_or_create : String → ℤ → Prog Error (Machine × Bool)
unfolding after_find
find_or_create text created_by =
    let name = trim_space text in
    if name == ""
    then raise empty_name
    else inspect (find_by_name name) (after_find name created_by)

abbrev pub by_name : MachineRow → MachineRow → Bool
by_name a b = nocase_before a.name b.name

pub select_matching : String → ℕ → Db → List Machine
select_matching q n d =
    if q == ""
    then take n (order_by by_name d.machines)
    else take n (order_by by_name (where_rows (λ m. like (pattern_of q) m.name) d.machines))

-- an `int` limit, outside 1 … 50 the default
abbrev pub clamp_limit : ℤ → ℕ
clamp_limit (pos n) = if leb n 0 || ltb 50 n then 20 else n
clamp_limit (ℤ.negsuc n) = 20

unfoldable pub search_machines : String → ℤ → Prog Error (List Machine)
search_machines query_text limit =
    query storage (select_matching (trim_space query_text) (clamp_limit limit))
