-- ===== src/Http/Progress.antt =====
-- Every request to every route is answered.
use mathlib.Core.List.{map}
use starfighter_workflow.Common.{
  ℕ, ◌≤◌, ◌<◌, ◌≡◌, String, Option, List, [], ◌∷◌, All, length, Bool-cases, inl, inr,
}
use starfighter_workflow.Db.Exec.{World}
use starfighter_workflow.Db.Takes.{Takes, returns}
use starfighter_workflow.Db.Threads.{interleave, running}
use starfighter_workflow.Db.Progress.{turns, interleave-running}
use starfighter_workflow.Auth.{Bcrypt, User}
use starfighter_workflow.Http.{HttpRequest, Handler}
use starfighter_workflow.Http.Handlers.{handle_me, handle_workflow_meta}
use starfighter_workflow.Http.Steps.{
  require_auth-Takes, require_admin-Takes, require_same_origin-Takes,
  handle_change_my_password-Takes, handle_change_user_password-Takes, handle_change_user_role-Takes,
  handle_claim_request-Takes, handle_create_request-Takes, handle_create_user-Takes,
  handle_delete_user-Takes, handle_get_request-Takes, handle_list_requests-Takes,
  handle_list_users-Takes, handle_login-Takes, handle_logout-Takes, handle_search_machines-Takes,
  handle_set_priority-Takes, handle_setup-Takes, handle_status-Takes,
  handle_take_over_request-Takes, handle_transition_request-Takes,
}
use starfighter_workflow.Http.Routes.{
  Route, Access, anyone, users, admins, access, authorized, changes_state, serve, status, setup,
  login, logout, me, change_my_password, list_users, create_user, delete_user, change_user_password,
  change_user_role, workflow_meta, search_machines, list_requests, create_request, get_request,
  claim_request, take_over_request, transition_request, set_priority,
}

-- an access whose handler makes at most seven steps, or ten where no session is looked up
data Ends : Access → Type 0 where
  for_anyone : {h : Handler} → ((r : HttpRequest) → Takes 10 (h r)) → Ends (anyone h)
  for_users :
      {h : User → Handler} → ((u : User) (r : HttpRequest) → Takes 7 (h u r)) → Ends (users h)
  for_admins : {h : Handler} → ((r : HttpRequest) → Takes 7 (h r)) → Ends (admins h)

module _ (bcrypt : Bcrypt) (host_of : String → Option String) where
  access-Ends : (route : Route) → Ends (access bcrypt host_of route)
  unfolding access handle_me handle_workflow_meta
  access-Ends status = for_anyone (handle_status-Takes)
  access-Ends (setup b) = for_anyone (handle_setup-Takes bcrypt b)
  access-Ends (login b) = for_anyone (handle_login-Takes bcrypt b)
  access-Ends logout = for_users (λ u. handle_logout-Takes)
  access-Ends me = for_users (λ u r. returns _)
  access-Ends (change_my_password b) = for_users (handle_change_my_password-Takes bcrypt b)
  access-Ends list_users = for_admins (handle_list_users-Takes)
  access-Ends (create_user b) = for_admins (handle_create_user-Takes bcrypt b)
  access-Ends (delete_user id) = for_admins (handle_delete_user-Takes id)
  access-Ends (change_user_password id b) =
      for_admins (handle_change_user_password-Takes bcrypt id b)
  access-Ends (change_user_role id b) = for_admins (handle_change_user_role-Takes id b)
  access-Ends workflow_meta = for_users (λ u r. returns _)
  access-Ends (search_machines q n) = for_users (λ u. handle_search_machines-Takes q n)
  access-Ends (list_requests s o) = for_users (λ u. handle_list_requests-Takes s o)
  access-Ends (create_request b) = for_users (handle_create_request-Takes b)
  access-Ends (get_request id) = for_users (λ u. handle_get_request-Takes id)
  access-Ends (claim_request id) = for_users (handle_claim_request-Takes id)
  access-Ends (take_over_request id) = for_users (handle_take_over_request-Takes id)
  access-Ends (transition_request id b) = for_users (λ u. handle_transition_request-Takes id b)
  access-Ends (set_priority id b) = for_users (λ u. handle_set_priority-Takes id b)

  authorized-Takes :
      {a : Access} → Ends a → (r : HttpRequest) → Takes 10 (authorized bcrypt host_of a r)
  unfolding authorized
  authorized-Takes (for_anyone k) r = k r
  authorized-Takes (for_users {h} k) r = require_auth-Takes h r (λ u. k u r)
  authorized-Takes (for_admins {h} k) r = require_admin-Takes (λ u. h) r (λ u. k r)

-- A request to any route, whatever its cookie, origin and parameters, is answered after at most ten
-- atomic steps, whatever the other requests do between the steps, whichever statements fail and
-- whatever the clock and the random source give.
pub serve-Takes :
    (bcrypt : Bcrypt) (host_of : String → Option String) (route : Route) (r : HttpRequest)
    → Takes 10 (serve bcrypt host_of route r)
unfolding serve
serve-Takes bcrypt host_of route r = elim (Bool-cases (changes_state bcrypt host_of route)) [
  | inl writes ↦ rw writes (
      require_same_origin-Takes host_of _ r
        (authorized-Takes bcrypt host_of (access-Ends bcrypt host_of route) r))
  | inr reads ↦ rw reads (authorized-Takes bcrypt host_of (access-Ends bcrypt host_of route) r)
]

served :
    (bcrypt : Bcrypt) (host_of : String → Option String) (asked : List (Route × HttpRequest))
    → All (Takes 10) (map (λ q. serve bcrypt host_of q.0 q.1) asked)
served bcrypt host_of [] = tt
served bcrypt host_of (q ∷ asked) =
    (serve-Takes bcrypt host_of q.0 q.1, served bcrypt host_of asked)

-- Any requests to any routes are served at the same time. After a schedule that gives each of them
-- at least ten turns, in whatever order, every request has been answered, whichever statements
-- fail and whatever the clock and the random source give.
pub interleave-serve :
    (bcrypt : Bcrypt) (host_of : String → Option String) (asked : List (Route × HttpRequest))
    (schedule : List ℕ) (w : World)
    → ((i : ℕ) → i < length (map (λ q. serve bcrypt host_of q.0 q.1) asked) → 10 ≤ turns i schedule)
    → running (interleave schedule (map (λ q. serve bcrypt host_of q.0 q.1) asked) w).0 ≡ 0
interleave-serve bcrypt host_of asked schedule w enough =
    interleave-running 10 (map (λ q. serve bcrypt host_of q.0 q.1) asked) schedule w
      (served bcrypt host_of asked) enough
