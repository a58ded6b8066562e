-- ===== src/Repair/Steps.antt =====
-- How many statements a call of repair.go makes.
use starfighter_workflow.Common.{ℕ, suc, ℤ, String, Option, none, some}
use starfighter_workflow.Db.Takes.{Takes, returns, raises, takes_rules}
use starfighter_workflow.Repair.States.{Status}
use starfighter_workflow.Repair.{
  Request, ListFilter, CreateInput, or_not_found, get, claim, take_over, create_checked, create,
  list, move_request, transition, set_priority,
}

or_not_found-Takes : {n : ℕ} (o : Option Request) → Takes n (or_not_found o)
unfolding or_not_found
or_not_found-Takes none = raises _
or_not_found-Takes (some r) = returns r

pub get-Takes : {n : ℕ} (id : ℤ) → Takes (suc n) (get id)
unfolding get
get-Takes id = search (takes_rules, or_not_found-Takes)

pub claim-Takes : {n : ℕ} (id actor : ℤ) → Takes (suc (suc (suc n))) (claim id actor)
unfolding claim
claim-Takes id actor = search (takes_rules, get-Takes) depth 9

pub take_over-Takes : {n : ℕ} (id actor : ℤ) → Takes (suc (suc (suc n))) (take_over id actor)
unfolding take_over
take_over-Takes id actor = search (takes_rules, get-Takes) depth 9

create_checked-Takes :
    {n : ℕ} (input : CreateInput) (by : ℤ) → Takes (suc (suc (suc n))) (create_checked input by)
unfolding create_checked
create_checked-Takes input by = search (takes_rules, get-Takes) depth 9

pub create-Takes :
    {n : ℕ} (input : CreateInput) (by : ℤ) → Takes (suc (suc (suc n))) (create input by)
unfolding create
create-Takes input by = search (takes_rules, create_checked-Takes)

move_request-Takes :
    {n : ℕ} (id : ℤ) (to : Status) (cur : Request)
    → Takes (suc (suc (suc n))) (move_request id to cur)
unfolding move_request
move_request-Takes id to cur = search (takes_rules, get-Takes) depth 12

pub transition-Takes :
    {n : ℕ} (id : ℤ) (to : Status) → Takes (suc (suc (suc (suc n)))) (transition id to)
unfolding transition
transition-Takes id to = search (takes_rules, get-Takes, move_request-Takes) depth 9

pub set_priority-Takes :
    {n : ℕ} (id : ℤ) (priority : String)
    → Takes (suc (suc (suc (suc n)))) (set_priority id priority)
unfolding set_priority
set_priority-Takes id priority = search (takes_rules, get-Takes) depth 12

pub list-Takes : {n : ℕ} (f : ListFilter) → Takes (suc n) (list f)
unfolding list
list-Takes f = search takes_rules
