-- ===== src/System.antt =====
-- The three services on one database: every call that internal/httpapi and cmd/sfworkflowd can make
-- of auth.go, machines.go and repair.go.
pub mod Sound
pub mod Interleaving
pub mod Progress
use starfighter_workflow.Common.{ℤ, String}
use starfighter_workflow.Db.Exec.{Prog, ret, raise, step}
use starfighter_workflow.Auth
use starfighter_workflow.Auth.{Bcrypt}
use starfighter_workflow.Machines
use starfighter_workflow.Repair
use starfighter_workflow.Repair.{CreateInput, ListFilter}
use starfighter_workflow.Repair.States.{Status}

pub data Call : Type 0 where
  find_user : ℤ → Call
  find_user_by_name : String → Call
  count_users list_users purge_expired wipe_all_sessions : Call
  create_user : (username password role display_name : String) → Call
  change_password : ℤ → String → Call
  change_role : ℤ → String → Call
  delete_user : ℤ → Call
  login : (username password : String) → Call
  lookup logout : (token : String) → Call
  find_or_create_machine : String → ℤ → Call
  find_machine : String → Call
  get_machine : ℤ → Call
  search_machines : String → ℤ → Call
  create_request : CreateInput → ℤ → Call
  get_request : ℤ → Call
  list_requests : ListFilter → Call
  claim take_over : (id actor : ℤ) → Call
  transition : ℤ → Status → Call
  set_priority : ℤ → String → Call

-- a method whose result nobody looks at
abbrev pub discard : {E A : Type 0} → Prog E A → Prog Unit Unit
discard (ret a) = ret tt
discard (raise e) = raise tt
discard (step f m) = step f (λ w. discard (m w))

unfoldable pub perform : Bcrypt → Call → Prog Unit Unit
perform b (find_user id) = discard (Auth.find_by_id id)
perform b (find_user_by_name name) = discard (Auth.find_by_username name)
perform b count_users = discard Auth.count_users
perform b list_users = discard Auth.list
perform b purge_expired = discard Auth.purge_expired
perform b wipe_all_sessions = discard Auth.wipe_all_sessions
perform b (create_user username password role display_name) =
    discard (Auth.create_user b username password role display_name)
perform b (change_password id password) = discard (Auth.change_password b id password)
perform b (change_role id role) = discard (Auth.change_role id role)
perform b (delete_user id) = discard (Auth.delete_by_id id)
perform b (login username password) = discard (Auth.login b username password)
perform b (lookup token) = discard (Auth.lookup token)
perform b (logout token) = discard (Auth.logout token)
perform b (find_or_create_machine name by) = discard (Machines.find_or_create name by)
perform b (find_machine name) = discard (Machines.find_by_name name)
perform b (get_machine id) = discard (Machines.get id)
perform b (search_machines q limit) = discard (Machines.search_machines q limit)
perform b (create_request input by) = discard (Repair.create input by)
perform b (get_request id) = discard (Repair.get id)
perform b (list_requests f) = discard (Repair.list f)
perform b (claim id actor) = discard (Repair.claim id actor)
perform b (take_over id actor) = discard (Repair.take_over id actor)
perform b (transition id to) = discard (Repair.transition id to)
perform b (set_priority id priority) = discard (Repair.set_priority id priority)
