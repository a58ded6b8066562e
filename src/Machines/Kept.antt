-- ===== src/Machines/Kept.antt =====
-- The invariant of the table machines, and the methods of machines.go under it, step by step.
use starfighter_workflow.Common.{
  ℕ, ◌≤◌, ℤ, String, Bool, Option, none, some, refl, and_left, Result, ok, err,
}
use starfighter_workflow.Sql.Rows.{count}
use starfighter_workflow.Db.{Db}
use starfighter_workflow.Db.Exec.{Prog, statement}
use starfighter_workflow.Db.Keys.{IsKeyed, IsKeyed-append}
use starfighter_workflow.Db.Unique.{is_none, IsNamed-append}
use starfighter_workflow.Db.Keeps.{
  Keeps, raises, returns, Keeps-statement, commit_if-keeps, keeps_rules,
}
use starfighter_workflow.Machines.{
  Error, not_found, empty_name, unique_violation, storage, Machine, found_or, named, find_by_name,
  get, insert_machine, after_insert, after_find, find_or_create, search_machines,
}

pub record IsSound (d : Db) : Type 0 where
  pub keys : IsKeyed (λ m. m.id) d.machine_seq d.machines
  pub names : (name : String) → count (named name) d.machines ≤ 1

pub insert_machine-IsSound :
    (name : String) (by : ℤ) (t : ℕ) (d : Db) → IsSound d → IsSound (insert_machine name by t d).1
unfolding insert_machine
insert_machine-IsSound name by t d s =
    commit_if-keeps IsSound _ _ _
      (λ allowed. record {
        keys = IsKeyed-append _ _ d.machines _ s.keys refl;
        names =
            IsNamed-append (λ m. m.name) d.machines _ s.names (is_none _ (and_left _ _ allowed));
      })
      s

abbrev pub IsKept : (Db → Type 0) → Type 0
IsKept P = (name : String) (by : ℤ) (t : ℕ) (d : Db) → P d → P (insert_machine name by t d).1

module _ (P : Db → Type 0) (kept : IsKept P) where
  insert_machine-Keeps :
      (bad : Error) (name : String) (by : ℤ) (t : ℕ)
      → Keeps P (statement bad (insert_machine name by t))
  insert_machine-Keeps bad name by t =
      Keeps-statement bad (insert_machine name by t) (kept name by t)

  found_or-Keeps : (o : Option Machine) → Keeps P (found_or o)
  unfolding found_or
  found_or-Keeps none = raises not_found
  found_or-Keeps (some m) = returns m

  pub find_by_name-Keeps : (name : String) → Keeps P (find_by_name name)
  unfolding find_by_name
  find_by_name-Keeps name = search (keeps_rules, found_or-Keeps)

  pub get-Keeps : (id : ℤ) → Keeps P (get id)
  unfolding get
  get-Keeps id = search (keeps_rules, found_or-Keeps)

  found-Keeps :
      (r : Result Error Machine)
      → Keeps P {E = Error} (elim r as (λ _. Prog Error (Machine × Bool)) [
        | ok m ↦ Prog.ret (m, Bool.false)
        | err e ↦ Prog.raise storage
      ])
  found-Keeps (ok m) = returns (m, Bool.false)
  found-Keeps (err e) = raises storage

  after_insert-Keeps : (name : String) (r : Result Error Machine) → Keeps P (after_insert name r)
  unfolding after_insert
  after_insert-Keeps name (ok m) = returns (m, Bool.true)
  after_insert-Keeps name (err not_found) = raises storage
  after_insert-Keeps name (err empty_name) = raises storage
  after_insert-Keeps name (err unique_violation) =
      search (keeps_rules, find_by_name-Keeps, found-Keeps)
  after_insert-Keeps name (err storage) = raises storage

  after_find-Keeps :
      (name : String) (by : ℤ) (r : Result Error Machine) → Keeps P (after_find name by r)
  unfolding after_find
  after_find-Keeps name by (ok m) = returns (m, Bool.false)
  after_find-Keeps name by (err not_found) =
      search (keeps_rules, insert_machine-Keeps, after_insert-Keeps)
  after_find-Keeps name by (err empty_name) = raises empty_name
  after_find-Keeps name by (err unique_violation) = raises unique_violation
  after_find-Keeps name by (err storage) = raises storage

  pub find_or_create-Keeps : (text : String) (by : ℤ) → Keeps P (find_or_create text by)
  unfolding find_or_create
  find_or_create-Keeps text by = search (keeps_rules, find_by_name-Keeps, after_find-Keeps)

  pub search_machines-Keeps : (q : String) (limit : ℤ) → Keeps P (search_machines q limit)
  unfolding search_machines
  search_machines-Keeps q limit = search keeps_rules
