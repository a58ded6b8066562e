-- ===== src/Http/Steps.antt =====
-- How many statements the middleware and the handlers make.
use starfighter_workflow.Common.{ℕ, zero, suc, ℤ, String, Bool, Option, none, some, arith}
use starfighter_workflow.Db.Exec.{Prog, ◌>>=◌}
use starfighter_workflow.Db.Takes.{
  Takes, returns, raises, steps, Takes-le, Takes-if, Takes-bind, Takes-bind_0, Takes-bind_1,
  takes_rules,
}
use starfighter_workflow.Auth.{Bcrypt, User}
use starfighter_workflow.Auth.Steps as AuthSteps
use starfighter_workflow.Machines.Steps as MachinesSteps
use starfighter_workflow.Repair.Steps as RepairSteps
use starfighter_workflow.Http.{
  HttpRequest, Reply, failed, Handler, or_reply, require_auth, require_admin, match_origin,
  require_same_origin,
}
use starfighter_workflow.Http.Handlers.{
  decoded, path_id, CreateUserReq, SetupReq, LoginReq, CreateRequestReq, handle_status,
  handle_setup, handle_login, handle_logout, handle_change_my_password, handle_list_users,
  handle_create_user, handle_delete_user, handle_change_user_password, handle_change_user_role,
  handle_search_machines, handle_list_requests, handle_create_request, handle_get_request,
  handle_claim_request, handle_take_over_request, handle_transition_request, handle_set_priority,
}

Takes-or_reply :
    {E A : Type 0} {n : ℕ} {m : Prog E A} (f : E → Reply) → Takes n m → Takes n (or_reply m f)
Takes-or_reply f (returns a) = returns a
Takes-or_reply f (raises e) = raises (f e)
Takes-or_reply f (steps h) = steps (λ w. Takes-or_reply f (h w))

decoded-Takes : {n : ℕ} {A : Type 0} (body : Option A) → Takes n (decoded body)
unfolding decoded
decoded-Takes none = raises (failed 400)
decoded-Takes (some a) = returns a

path_id-Takes : {n : ℕ} (id : Option ℤ) → Takes n (path_id id)
unfolding path_id
path_id-Takes none = raises (failed 400)
path_id-Takes (some a) = returns a

module _ {E A B : Type 0} {n : ℕ} {m : Prog E A} {k : A → Prog E B}
    (h : (a : A) → Takes n (k a)) where
  Takes-bind_3 : Takes (suc (suc (suc zero))) m → Takes (suc (suc (suc n))) (m >>= k)
  Takes-bind_3 t = Takes-le (omega arith) (Takes-bind 3 t h)

  Takes-bind_4 : Takes (suc (suc (suc (suc zero)))) m → Takes (suc (suc (suc (suc n)))) (m >>= k)
  Takes-bind_4 t = Takes-le (omega arith) (Takes-bind 4 t h)

  Takes-bind_5 :
      Takes (suc (suc (suc (suc (suc zero))))) m → Takes (suc (suc (suc (suc (suc n))))) (m >>= k)
  Takes-bind_5 t = Takes-le (omega arith) (Takes-bind 5 t h)

ruleset reply_steps = (
  takes_rules, Takes-or_reply, Takes-bind_3, Takes-bind_4, Takes-bind_5, decoded-Takes,
  path_id-Takes,
)

-- the middleware adds the three steps of a lookup at most
pub require_auth-Takes :
    {n : ℕ} (next : User → Handler) (r : HttpRequest)
    → ((u : User) → Takes n (next u r))
    → Takes (suc (suc (suc n))) (require_auth next r)
unfolding require_auth
require_auth-Takes next r h = search (reply_steps, AuthSteps.lookup-Takes, h) depth 9

pub require_admin-Takes :
    {n : ℕ} (next : User → Handler) (r : HttpRequest)
    → ((u : User) → Takes n (next u r))
    → Takes (suc (suc (suc n))) (require_admin next r)
unfolding require_admin
require_admin-Takes next r h = require_auth-Takes _ r (λ u. search (reply_steps, h))

match_origin-Takes :
    {n : ℕ} (next : Handler) (r : HttpRequest) (host : Option String)
    → Takes n (next r)
    → Takes n (match_origin next r host)
unfolding match_origin
match_origin-Takes next r none h = raises (failed 403)
match_origin-Takes next r (some x) h = search (reply_steps, h)

pub require_same_origin-Takes :
    {n : ℕ} (host_of : String → Option String) (next : Handler) (r : HttpRequest)
    → Takes n (next r)
    → Takes n (require_same_origin host_of next r)
unfolding require_same_origin
require_same_origin-Takes host_of next r h = search (reply_steps, match_origin-Takes, h)

pub handle_status-Takes : {n : ℕ} (r : HttpRequest) → Takes (suc n) (handle_status r)
unfolding handle_status
handle_status-Takes r = search (reply_steps, AuthSteps.count_users-Takes) depth 14

pub handle_setup-Takes :
    {n : ℕ} (bcrypt : Bcrypt) (body : Option SetupReq) (r : HttpRequest)
    → Takes (suc (suc (suc (suc (suc (suc (suc (suc (suc n))))))))) (handle_setup bcrypt body r)
unfolding handle_setup
handle_setup-Takes bcrypt body r =
    Takes-bind_1
      (λ n. Takes-if _ (raises _) (
        Takes-bind_0
          (λ req. search (
            returns,
            Takes-or_reply,
            Takes-bind_3,
            Takes-bind_5,
            AuthSteps.create_user-Takes bcrypt,
            AuthSteps.login-Takes bcrypt,
          ))
          (decoded-Takes body)))
      (Takes-or_reply _ AuthSteps.count_users-Takes)

pub handle_login-Takes :
    {n : ℕ} (bcrypt : Bcrypt) (body : Option LoginReq) (r : HttpRequest)
    → Takes (suc (suc (suc (suc (suc n))))) (handle_login bcrypt body r)
unfolding handle_login
handle_login-Takes bcrypt body r = search (reply_steps, AuthSteps.login-Takes bcrypt) depth 14

pub handle_logout-Takes : {n : ℕ} (r : HttpRequest) → Takes (suc n) (handle_logout r)
unfolding handle_logout
handle_logout-Takes r = search (reply_steps, AuthSteps.logout-Takes) depth 14

pub handle_change_my_password-Takes :
    {n : ℕ} (bcrypt : Bcrypt) (body : Option String) (u : User) (r : HttpRequest)
    → Takes (suc (suc (suc n))) (handle_change_my_password bcrypt body u r)
unfolding handle_change_my_password
handle_change_my_password-Takes bcrypt body u r =
    search (reply_steps, AuthSteps.change_password-Takes bcrypt) depth 14

pub handle_list_users-Takes : {n : ℕ} (r : HttpRequest) → Takes (suc n) (handle_list_users r)
unfolding handle_list_users
handle_list_users-Takes r = search (reply_steps, AuthSteps.list-Takes) depth 14

pub handle_create_user-Takes :
    {n : ℕ} (bcrypt : Bcrypt) (body : Option CreateUserReq) (r : HttpRequest)
    → Takes (suc (suc (suc n))) (handle_create_user bcrypt body r)
unfolding handle_create_user
handle_create_user-Takes bcrypt body r =
    search (reply_steps, AuthSteps.create_user-Takes bcrypt) depth 14

pub handle_delete_user-Takes :
    {n : ℕ} (id : Option ℤ) (r : HttpRequest) → Takes (suc (suc (suc n))) (handle_delete_user id r)
unfolding handle_delete_user
handle_delete_user-Takes id r = search (reply_steps, AuthSteps.delete_by_id-Takes) depth 14

pub handle_change_user_password-Takes :
    {n : ℕ} (bcrypt : Bcrypt) (id : Option ℤ) (body : Option String) (r : HttpRequest)
    → Takes (suc (suc (suc n))) (handle_change_user_password bcrypt id body r)
unfolding handle_change_user_password
handle_change_user_password-Takes bcrypt id body r =
    search (reply_steps, AuthSteps.change_password-Takes bcrypt) depth 14

pub handle_change_user_role-Takes :
    {n : ℕ} (id : Option ℤ) (body : Option String) (r : HttpRequest)
    → Takes (suc (suc (suc n))) (handle_change_user_role id body r)
unfolding handle_change_user_role
handle_change_user_role-Takes id body r = search (reply_steps, AuthSteps.change_role-Takes) depth 14

pub handle_search_machines-Takes :
    {n : ℕ} (q : String) (limit : Option ℤ) (r : HttpRequest)
    → Takes (suc n) (handle_search_machines q limit r)
unfolding handle_search_machines
handle_search_machines-Takes q limit r =
    search (reply_steps, MachinesSteps.search_machines-Takes) depth 14

pub handle_list_requests-Takes :
    {n : ℕ} (s : String) (o : Bool) (r : HttpRequest) → Takes (suc n) (handle_list_requests s o r)
unfolding handle_list_requests
handle_list_requests-Takes s o r = search (reply_steps, RepairSteps.list-Takes) depth 14

pub handle_create_request-Takes :
    {n : ℕ} (body : Option CreateRequestReq) (u : User) (r : HttpRequest)
    → Takes (suc (suc (suc (suc (suc (suc (suc n))))))) (handle_create_request body u r)
unfolding handle_create_request
handle_create_request-Takes body u r =
    search (reply_steps, MachinesSteps.find_or_create-Takes, RepairSteps.create-Takes) depth 14

pub handle_get_request-Takes :
    {n : ℕ} (id : Option ℤ) (r : HttpRequest) → Takes (suc n) (handle_get_request id r)
unfolding handle_get_request
handle_get_request-Takes id r = search (reply_steps, RepairSteps.get-Takes) depth 14

pub handle_claim_request-Takes :
    {n : ℕ} (id : Option ℤ) (u : User) (r : HttpRequest)
    → Takes (suc (suc (suc n))) (handle_claim_request id u r)
unfolding handle_claim_request
handle_claim_request-Takes id u r = search (reply_steps, RepairSteps.claim-Takes) depth 14

pub handle_take_over_request-Takes :
    {n : ℕ} (id : Option ℤ) (u : User) (r : HttpRequest)
    → Takes (suc (suc (suc n))) (handle_take_over_request id u r)
unfolding handle_take_over_request
handle_take_over_request-Takes id u r = search (reply_steps, RepairSteps.take_over-Takes) depth 14

pub handle_transition_request-Takes :
    {n : ℕ} (id : Option ℤ) (body : Option String) (r : HttpRequest)
    → Takes (suc (suc (suc (suc n)))) (handle_transition_request id body r)
unfolding handle_transition_request
handle_transition_request-Takes id body r =
    search (reply_steps, RepairSteps.transition-Takes) depth 14

pub handle_set_priority-Takes :
    {n : ℕ} (id : Option ℤ) (body : Option String) (r : HttpRequest)
    → Takes (suc (suc (suc (suc n)))) (handle_set_priority id body r)
unfolding handle_set_priority
handle_set_priority-Takes id body r = search (reply_steps, RepairSteps.set_priority-Takes) depth 14
