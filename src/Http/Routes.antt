-- ===== src/Http/Routes.antt =====
-- `routes` of server.go: every JSON route with what guards it.
use starfighter_workflow.Common.{ℤ, String, Bool, true, false, Option, if◌then◌else◌}
use starfighter_workflow.Auth.{Bcrypt, User}
use starfighter_workflow.Repair.States.{Status}
use starfighter_workflow.Http.{Handler, require_auth, require_admin, require_same_origin}
use starfighter_workflow.Http.Handlers.{
  CreateUserReq, SetupReq, LoginReq, CreateRequestReq, handle_status, handle_setup, handle_login,
  handle_logout, handle_me, handle_change_my_password, handle_list_users, handle_create_user,
  handle_delete_user, handle_change_user_password, handle_change_user_role, handle_workflow_meta,
  handle_search_machines, handle_list_requests, handle_create_request, handle_get_request,
  handle_claim_request, handle_take_over_request, handle_transition_request, handle_set_priority,
}

-- a route with its decoded parameters: the path's id, the query's values, the body
pub data Route : Type 0 where
  status logout me list_users workflow_meta : Route
  setup : Option SetupReq → Route
  login : Option LoginReq → Route
  change_my_password : Option String → Route
  create_user : Option CreateUserReq → Route
  delete_user : Option ℤ → Route
  change_user_password : Option ℤ → Option String → Route
  change_user_role : Option ℤ → Option String → Route
  search_machines : String → Option ℤ → Route
  list_requests : String → Bool → Route
  create_request : Option CreateRequestReq → Route
  get_request : Option ℤ → Route
  claim_request take_over_request : Option ℤ → Route
  transition_request : Option ℤ → Option Status → Route
  set_priority : Option ℤ → Option String → Route

-- who may use a route
pub data Access : Type 0 where
  anyone : Handler → Access
  users : (User → Handler) → Access
  admins : Handler → Access

module _ (bcrypt : Bcrypt) (host_of : String → Option String) where
  unfoldable pub access : Route → Access
  access status = anyone handle_status
  access (setup body) = anyone (handle_setup bcrypt body)
  access (login body) = anyone (handle_login bcrypt body)
  access logout = users (λ u. handle_logout)
  access me = users handle_me
  access (change_my_password body) = users (handle_change_my_password bcrypt body)
  access list_users = admins handle_list_users
  access (create_user body) = admins (handle_create_user bcrypt body)
  access (delete_user id) = admins (handle_delete_user id)
  access (change_user_password id body) = admins (handle_change_user_password bcrypt id body)
  access (change_user_role id body) = admins (handle_change_user_role id body)
  access workflow_meta = users (λ u. handle_workflow_meta)
  access (search_machines q limit) = users (λ u. handle_search_machines q limit)
  access (list_requests s o) = users (λ u. handle_list_requests s o)
  access (create_request body) = users (handle_create_request body)
  access (get_request id) = users (λ u. handle_get_request id)
  access (claim_request id) = users (handle_claim_request id)
  access (take_over_request id) = users (handle_take_over_request id)
  access (transition_request id body) = users (λ u. handle_transition_request id body)
  access (set_priority id body) = users (λ u. handle_set_priority id body)

  unfoldable pub authorized : Access → Handler
  authorized (anyone h) = h
  authorized (users h) = require_auth h
  authorized (admins h) = require_admin (λ u. h)

  -- the routes behind `requireSameOrigin`: those that are not GET
  unfoldable pub changes_state : Route → Bool
  changes_state status = false
  changes_state me = false
  changes_state list_users = false
  changes_state workflow_meta = false
  changes_state (search_machines q limit) = false
  changes_state (list_requests s o) = false
  changes_state (get_request id) = false
  changes_state _ = true

  unfoldable pub serve : Route → Handler
  unfolding changes_state
  serve route =
      if changes_state route
      then require_same_origin host_of (authorized (access route))
      else authorized (access route)
