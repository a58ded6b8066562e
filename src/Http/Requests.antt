-- ===== src/Http/Requests.antt =====
-- Requests that are served at the same time.
use mathlib.Core.List.{map}
use starfighter_workflow.Common.{ℕ, String, Option, List, [], ◌∷◌, All, Bool-cases, inl, inr}
use starfighter_workflow.Db.Exec.{World}
use starfighter_workflow.Db.Keeps.{Keeps, returns}
use starfighter_workflow.Db.Threads.{interleave, interleave-Keeps}
use starfighter_workflow.Auth.{Bcrypt, User}
use starfighter_workflow.Http.{HttpRequest, Handler}
use starfighter_workflow.Http.Handlers.{handle_me, handle_workflow_meta}
use starfighter_workflow.Http.Keeping.{
  require_auth-Keeps, require_admin-Keeps, require_same_origin-Keeps,
  handle_change_my_password-Keeps, handle_change_user_password-Keeps, handle_change_user_role-Keeps,
  handle_claim_request-Keeps, handle_create_request-Keeps, handle_create_user-Keeps,
  handle_delete_user-Keeps, handle_get_request-Keeps, handle_list_requests-Keeps,
  handle_list_users-Keeps, handle_login-Keeps, handle_logout-Keeps, handle_search_machines-Keeps,
  handle_set_priority-Keeps, handle_setup-Keeps, handle_status-Keeps,
  handle_take_over_request-Keeps, handle_transition_request-Keeps,
}
use starfighter_workflow.Http.Routes.{
  Route, Access, anyone, users, admins, access, authorized, changes_state, serve, status, setup,
  login, logout, me, change_my_password, list_users, create_user, delete_user, change_user_password,
  change_user_role, workflow_meta, search_machines, list_requests, create_request, get_request,
  claim_request, take_over_request, transition_request, set_priority,
}
use starfighter_workflow.System.Sound.{IsSound, IsSound-AuthKept}

-- an access whose handler keeps the database sound, whoever calls it
data Allows : Access → Type 0 where
  for_anyone : {h : Handler} → ((r : HttpRequest) → Keeps IsSound (h r)) → Allows (anyone h)
  for_users :
      {h : User → Handler}
      → ((u : User) (r : HttpRequest) → Keeps IsSound (h u r))
      → Allows (users h)
  for_admins : {h : Handler} → ((r : HttpRequest) → Keeps IsSound (h r)) → Allows (admins h)

module _ (bcrypt : Bcrypt) (host_of : String → Option String) where
  access-Allows : (route : Route) → Allows (access bcrypt host_of route)
  unfolding access handle_me handle_workflow_meta
  access-Allows status = for_anyone (handle_status-Keeps bcrypt)
  access-Allows (setup b) = for_anyone (handle_setup-Keeps bcrypt b)
  access-Allows (login b) = for_anyone (handle_login-Keeps bcrypt b)
  access-Allows logout = for_users (λ u. handle_logout-Keeps bcrypt)
  access-Allows me = for_users (λ u r. returns _)
  access-Allows (change_my_password b) = for_users (handle_change_my_password-Keeps bcrypt b)
  access-Allows list_users = for_admins (handle_list_users-Keeps bcrypt)
  access-Allows (create_user b) = for_admins (handle_create_user-Keeps bcrypt b)
  access-Allows (delete_user id) = for_admins (handle_delete_user-Keeps bcrypt id)
  access-Allows (change_user_password id b) =
      for_admins (handle_change_user_password-Keeps bcrypt id b)
  access-Allows (change_user_role id b) = for_admins (handle_change_user_role-Keeps bcrypt id b)
  access-Allows workflow_meta = for_users (λ u r. returns _)
  access-Allows (search_machines q n) = for_users (λ u. handle_search_machines-Keeps bcrypt q n)
  access-Allows (list_requests s o) = for_users (λ u. handle_list_requests-Keeps bcrypt s o)
  access-Allows (create_request b) = for_users (handle_create_request-Keeps bcrypt b)
  access-Allows (get_request id) = for_users (λ u. handle_get_request-Keeps bcrypt id)
  access-Allows (claim_request id) = for_users (handle_claim_request-Keeps bcrypt id)
  access-Allows (take_over_request id) = for_users (handle_take_over_request-Keeps bcrypt id)
  access-Allows (transition_request id b) =
      for_users (λ u. handle_transition_request-Keeps bcrypt id b)
  access-Allows (set_priority id b) = for_users (λ u. handle_set_priority-Keeps bcrypt id b)

  authorized-Keeps :
      {a : Access} → Allows a → (r : HttpRequest) → Keeps IsSound (authorized bcrypt host_of a r)
  unfolding authorized
  authorized-Keeps (for_anyone k) r = k r
  authorized-Keeps (for_users {h} k) r = require_auth-Keeps IsSound h k IsSound-AuthKept r
  authorized-Keeps (for_admins {h} k) r =
      require_admin-Keeps IsSound (λ u. h) (λ u. k) IsSound-AuthKept r

  pub serve-Keeps : (route : Route) (r : HttpRequest) → Keeps IsSound (serve bcrypt host_of route r)
  unfolding serve
  serve-Keeps route r = elim (Bool-cases (changes_state bcrypt host_of route)) [
    | inl writes ↦
        rw writes
          (require_same_origin-Keeps IsSound host_of _ r (authorized-Keeps (access-Allows route) r))
    | inr reads ↦ rw reads (authorized-Keeps (access-Allows route) r)
  ]

  served :
      (asked : List (Route × HttpRequest))
      → All (Keeps IsSound) (map (λ q. serve bcrypt host_of q.0 q.1) asked)
  served [] = tt
  served (q ∷ asked) = (serve-Keeps q.0 q.1, served asked)

-- Any requests to any routes are served at the same time. Whatever the schedule of their
-- statements, whichever statements fail and whatever the clock and the random source give, the
-- database stays sound if it was.
pub serve-interleave-IsSound :
    (bcrypt : Bcrypt) (host_of : String → Option String) (asked : List (Route × HttpRequest))
    (schedule : List ℕ) (w : World)
    → IsSound w.db
    → IsSound (interleave schedule (map (λ q. serve bcrypt host_of q.0 q.1) asked) w).1.db
serve-interleave-IsSound bcrypt host_of asked schedule w s =
    interleave-Keeps IsSound schedule (map (λ q. serve bcrypt host_of q.0 q.1) asked) w
      (served bcrypt host_of asked) s
