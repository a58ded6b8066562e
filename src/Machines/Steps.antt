-- ===== src/Machines/Steps.antt =====
-- How many statements a call of machines.go makes.
use starfighter_workflow.Common.{ℕ, suc, ℤ, String, Bool, Option, none, some, Result, ok, err}
use starfighter_workflow.Db.Exec.{Prog}
use starfighter_workflow.Db.Takes.{Takes, returns, raises, takes_rules}
use starfighter_workflow.Machines.{
  Error, Machine, not_found, empty_name, unique_violation, storage, found_or, get, find_by_name,
  after_insert, after_find, find_or_create, search_machines,
}

found_or-Takes : {n : ℕ} (o : Option Machine) → Takes n (found_or o)
unfolding found_or
found_or-Takes none = raises not_found
found_or-Takes (some m) = returns m

pub get-Takes : {n : ℕ} (id : ℤ) → Takes (suc n) (get id)
unfolding get
get-Takes id = search (takes_rules, found_or-Takes)

pub find_by_name-Takes : {n : ℕ} (name : String) → Takes (suc n) (find_by_name name)
unfolding find_by_name
find_by_name-Takes name = search (takes_rules, found_or-Takes)

found-Takes :
    {n : ℕ} (r : Result Error Machine)
    → Takes {E = Error} n (elim r as (λ _. Prog Error (Machine × Bool)) [
      | ok m ↦ Prog.ret (m, Bool.false)
      | err e ↦ Prog.raise storage
    ])
found-Takes (ok m) = returns (m, Bool.false)
found-Takes (err e) = raises storage

after_insert-Takes :
    {n : ℕ} (name : String) (r : Result Error Machine) → Takes (suc n) (after_insert name r)
unfolding after_insert
after_insert-Takes name (ok m) = returns (m, Bool.true)
after_insert-Takes name (err not_found) = raises storage
after_insert-Takes name (err empty_name) = raises storage
after_insert-Takes name (err unique_violation) =
    search (takes_rules, find_by_name-Takes, found-Takes)
after_insert-Takes name (err storage) = raises storage

after_find-Takes :
    {n : ℕ} (name : String) (by : ℤ) (r : Result Error Machine)
    → Takes (suc (suc (suc n))) (after_find name by r)
unfolding after_find
after_find-Takes name by (ok m) = returns (m, Bool.false)
after_find-Takes name by (err not_found) = search (takes_rules, after_insert-Takes)
after_find-Takes name by (err empty_name) = raises empty_name
after_find-Takes name by (err unique_violation) = raises unique_violation
after_find-Takes name by (err storage) = raises storage

pub find_or_create-Takes :
    {n : ℕ} (text : String) (by : ℤ) → Takes (suc (suc (suc (suc n)))) (find_or_create text by)
unfolding find_or_create
find_or_create-Takes text by = search (takes_rules, find_by_name-Takes, after_find-Takes)

pub search_machines-Takes :
    {n : ℕ} (q : String) (limit : ℤ) → Takes (suc n) (search_machines q limit)
unfolding search_machines
search_machines-Takes q limit = search takes_rules
