-- ===== src/Http/Keeping.antt =====
-- The middleware and the handlers, step by step, under the invariant of the database.
use starfighter_workflow.Common.{ℤ, String, Bool, Option, none, some}
use starfighter_workflow.Db.{Db}
use starfighter_workflow.Db.Exec.{Prog}
use starfighter_workflow.Db.Keeps.{Keeps, returns, raises, steps, keeps_rules}
use starfighter_workflow.Auth.{Bcrypt, User}
use starfighter_workflow.Auth.Kept as AuthKept
use starfighter_workflow.Auth.Operations as AuthOperations
use starfighter_workflow.Machines.Kept as MachinesKept
use starfighter_workflow.Repair.Operations as RepairOperations
use starfighter_workflow.Http.{
  HttpRequest, Reply, failed, Handler, or_reply, require_auth, require_admin, match_origin,
  require_same_origin,
}
use starfighter_workflow.Http.Handlers.{
  decoded, path_id, CreateUserReq, SetupReq, LoginReq, CreateRequestReq, handle_status,
  handle_setup, handle_login, handle_logout, handle_change_my_password, handle_list_users,
  handle_create_user, handle_delete_user, handle_change_user_password, handle_change_user_role,
  handle_search_machines, handle_list_requests, handle_create_request, handle_get_request,
  handle_claim_request, handle_take_over_request, handle_transition_request, handle_set_priority,
}
use starfighter_workflow.System.Sound.{
  IsSound, IsSound-AuthKept, IsSound-MachinesKept, IsSound-RepairKept,
}

pub Keeps-or_reply :
    {P : Db → Type 0} {E A : Type 0} {m : Prog E A} (f : E → Reply)
    → Keeps P m
    → Keeps P (or_reply m f)
Keeps-or_reply f (returns a) = returns a
Keeps-or_reply f (raises e) = raises (f e)
Keeps-or_reply f (steps g m) = steps g (λ w. Keeps-or_reply f (m w))

pub decoded-Keeps : {P : Db → Type 0} {A : Type 0} (body : Option A) → Keeps P (decoded body)
unfolding decoded
decoded-Keeps none = raises (failed 400)
decoded-Keeps (some a) = returns a

pub path_id-Keeps : {P : Db → Type 0} (id : Option ℤ) → Keeps P (path_id id)
unfolding path_id
path_id-Keeps none = raises (failed 400)
path_id-Keeps (some a) = returns a

pub ruleset reply_rules = (keeps_rules, Keeps-or_reply, decoded-Keeps, path_id-Keeps)

module _ (P : Db → Type 0) where
  -- the middleware keeps what its handler keeps
  pub require_auth-Keeps :
      (next : User → Handler)
      → ((u : User) (r : HttpRequest) → Keeps P (next u r))
      → AuthKept.IsKept P
      → (r : HttpRequest) → Keeps P (require_auth next r)
  unfolding require_auth
  require_auth-Keeps next h kept r =
      search (reply_rules, AuthOperations.lookup-Keeps P kept, h) depth 9

  pub require_admin-Keeps :
      (next : User → Handler)
      → ((u : User) (r : HttpRequest) → Keeps P (next u r))
      → AuthKept.IsKept P
      → (r : HttpRequest) → Keeps P (require_admin next r)
  unfolding require_admin
  require_admin-Keeps next h kept r = require_auth-Keeps _ (λ u q. search (reply_rules, h)) kept r

  match_origin-Keeps :
      (next : Handler) (r : HttpRequest) (host : Option String)
      → Keeps P (next r)
      → Keeps P (match_origin next r host)
  unfolding match_origin
  match_origin-Keeps next r none h = raises (failed 403)
  match_origin-Keeps next r (some x) h = search (reply_rules, h)

  pub require_same_origin-Keeps :
      (host_of : String → Option String) (next : Handler) (r : HttpRequest)
      → Keeps P (next r)
      → Keeps P (require_same_origin host_of next r)
  unfolding require_same_origin
  require_same_origin-Keeps host_of next r h = search (reply_rules, match_origin-Keeps, h)

module _ (bcrypt : Bcrypt) where
  pub handle_status-Keeps : (r : HttpRequest) → Keeps IsSound (handle_status r)
  unfolding handle_status
  handle_status-Keeps r =
      search (reply_rules, AuthOperations.count_users-Keeps IsSound IsSound-AuthKept) depth 14

  pub handle_setup-Keeps :
      (body : Option SetupReq) (r : HttpRequest) → Keeps IsSound (handle_setup bcrypt body r)
  unfolding handle_setup
  handle_setup-Keeps body r =
      search
        (
          reply_rules,
          AuthOperations.count_users-Keeps IsSound IsSound-AuthKept,
          AuthOperations.create_user-Keeps IsSound IsSound-AuthKept bcrypt,
          AuthOperations.login-Keeps IsSound IsSound-AuthKept bcrypt,
        )
        depth 14

  pub handle_login-Keeps :
      (body : Option LoginReq) (r : HttpRequest) → Keeps IsSound (handle_login bcrypt body r)
  unfolding handle_login
  handle_login-Keeps body r =
      search (reply_rules, AuthOperations.login-Keeps IsSound IsSound-AuthKept bcrypt) depth 14

  pub handle_logout-Keeps : (r : HttpRequest) → Keeps IsSound (handle_logout r)
  unfolding handle_logout
  handle_logout-Keeps r =
      search (reply_rules, AuthOperations.logout-Keeps IsSound IsSound-AuthKept) depth 14

  pub handle_change_my_password-Keeps :
      (body : Option String) (u : User) (r : HttpRequest)
      → Keeps IsSound (handle_change_my_password bcrypt body u r)
  unfolding handle_change_my_password
  handle_change_my_password-Keeps body u r =
      search (reply_rules, AuthOperations.change_password-Keeps IsSound IsSound-AuthKept bcrypt)
        depth 14

  pub handle_list_users-Keeps : (r : HttpRequest) → Keeps IsSound (handle_list_users r)
  unfolding handle_list_users
  handle_list_users-Keeps r =
      search (reply_rules, AuthOperations.list-Keeps IsSound IsSound-AuthKept) depth 14

  pub handle_create_user-Keeps :
      (body : Option CreateUserReq) (r : HttpRequest)
      → Keeps IsSound (handle_create_user bcrypt body r)
  unfolding handle_create_user
  handle_create_user-Keeps body r =
      search (reply_rules, AuthOperations.create_user-Keeps IsSound IsSound-AuthKept bcrypt) depth
        14

  pub handle_delete_user-Keeps :
      (id : Option ℤ) (r : HttpRequest) → Keeps IsSound (handle_delete_user id r)
  unfolding handle_delete_user
  handle_delete_user-Keeps id r =
      search (reply_rules, AuthOperations.delete_by_id-Keeps IsSound IsSound-AuthKept) depth 14

  pub handle_change_user_password-Keeps :
      (id : Option ℤ) (body : Option String) (r : HttpRequest)
      → Keeps IsSound (handle_change_user_password bcrypt id body r)
  unfolding handle_change_user_password
  handle_change_user_password-Keeps id body r =
      search (reply_rules, AuthOperations.change_password-Keeps IsSound IsSound-AuthKept bcrypt)
        depth 14

  pub handle_change_user_role-Keeps :
      (id : Option ℤ) (body : Option String) (r : HttpRequest)
      → Keeps IsSound (handle_change_user_role id body r)
  unfolding handle_change_user_role
  handle_change_user_role-Keeps id body r =
      search (reply_rules, AuthOperations.change_role-Keeps IsSound IsSound-AuthKept) depth 14

  pub handle_search_machines-Keeps :
      (q : String) (limit : Option ℤ) (r : HttpRequest)
      → Keeps IsSound (handle_search_machines q limit r)
  unfolding handle_search_machines
  handle_search_machines-Keeps q limit r =
      search (reply_rules, MachinesKept.search_machines-Keeps IsSound IsSound-MachinesKept) depth 14

  pub handle_list_requests-Keeps :
      (s : String) (o : Bool) (r : HttpRequest) → Keeps IsSound (handle_list_requests s o r)
  unfolding handle_list_requests
  handle_list_requests-Keeps s o r =
      search (reply_rules, RepairOperations.list-Keeps IsSound IsSound-RepairKept) depth 14

  pub handle_create_request-Keeps :
      (body : Option CreateRequestReq) (u : User) (r : HttpRequest)
      → Keeps IsSound (handle_create_request body u r)
  unfolding handle_create_request
  handle_create_request-Keeps body u r =
      search
        (
          reply_rules,
          MachinesKept.find_or_create-Keeps IsSound IsSound-MachinesKept,
          RepairOperations.create-Keeps IsSound IsSound-RepairKept,
        )
        depth 14

  pub handle_get_request-Keeps :
      (id : Option ℤ) (r : HttpRequest) → Keeps IsSound (handle_get_request id r)
  unfolding handle_get_request
  handle_get_request-Keeps id r =
      search (reply_rules, RepairOperations.get-Keeps IsSound IsSound-RepairKept) depth 14

  pub handle_claim_request-Keeps :
      (id : Option ℤ) (u : User) (r : HttpRequest) → Keeps IsSound (handle_claim_request id u r)
  unfolding handle_claim_request
  handle_claim_request-Keeps id u r =
      search (reply_rules, RepairOperations.claim-Keeps IsSound IsSound-RepairKept) depth 14

  pub handle_take_over_request-Keeps :
      (id : Option ℤ) (u : User) (r : HttpRequest) → Keeps IsSound (handle_take_over_request id u r)
  unfolding handle_take_over_request
  handle_take_over_request-Keeps id u r =
      search (reply_rules, RepairOperations.take_over-Keeps IsSound IsSound-RepairKept) depth 14

  pub handle_transition_request-Keeps :
      (id : Option ℤ) (body : Option String) (r : HttpRequest)
      → Keeps IsSound (handle_transition_request id body r)
  unfolding handle_transition_request
  handle_transition_request-Keeps id body r =
      search (reply_rules, RepairOperations.transition-Keeps IsSound IsSound-RepairKept) depth 14

  pub handle_set_priority-Keeps :
      (id : Option ℤ) (body : Option String) (r : HttpRequest)
      → Keeps IsSound (handle_set_priority id body r)
  unfolding handle_set_priority
  handle_set_priority-Keeps id body r =
      search (reply_rules, RepairOperations.set_priority-Keeps IsSound IsSound-RepairKept) depth 14
