-- ===== src/Http/Mux.antt =====
-- `routes` of server.go as patterns, and what the ServeMux of net/http makes of them: from the method
-- and the path of a request to the handler that is registered for them.
pub mod Unique
use Prim.Native.Char.{Char, code}
use mathlib.Core.Option
use starfighter_workflow.Common.{
  ℤ, String, Bool, true, false, not, Option, none, some, List, [], ◌∷◌, map, ◌==◌, ◌=ℕ◌,
  if◌then◌else◌, is_some, ◌&&◌, ◌||◌,
}
use starfighter_workflow.Common.Decimal.{parse_int}
use starfighter_workflow.Http.{Method, get_method, head, post, patch, delete_method, HttpRequest}
use starfighter_workflow.Http.Handlers.{CreateUserReq, SetupReq, LoginReq, CreateRequestReq}
use starfighter_workflow.Http.Routes.{
  Route, status, setup, login, logout, me, change_my_password, list_users, create_user, delete_user,
  change_user_password, change_user_role, workflow_meta, search_machines, list_requests,
  create_request, get_request, claim_request, take_over_request, transition_request, set_priority,
}

-- A request as it comes in. `escaped_path` is the path that the mux looks at, `path` the unescaped
-- one; `query` gives the first value of a parameter, "" without one.
pub record Incoming : Type 0 where
  pub request : HttpRequest
  pub escaped_path : String
  pub path : String
  pub query : String → String
  pub body : String

-- What the standard library makes of texts: `path.Clean` as the mux calls it, `url.PathUnescape`,
-- the host that `url.Parse` finds, and what encoding/json decodes from a body.
pub record Decoders : Type 0 where
  pub clean : String → String
  pub unescape : String → String
  pub host_of : String → Option String
  pub setup_req : String → Option SetupReq
  pub login_req : String → Option LoginReq
  pub password_req : String → Option String
  pub create_user_req : String → Option CreateUserReq
  pub role_req : String → Option String
  pub create_request_req : String → Option CreateRequestReq
  pub transition_req : String → Option String
  pub priority_req : String → Option String

-- the segments of a path behind its first slash
abbrev put_first : Char → List String → List String
put_first c [] = (String.◌∷◌ c String.[]) ∷ []
put_first c (s ∷ ss) = String.◌∷◌ c s ∷ ss

unfoldable pub cut : String → List String
cut String.[] = "" ∷ []
cut (String.◌∷◌ c s) = let rest = cut s in if code c =ℕ b'/' then "" ∷ rest else put_first c rest

unfoldable pub segments : String → List String
unfolding cut
segments String.[] = []
segments (String.◌∷◌ c s) = cut s

pub data Segment : Type 0 where
  literal : String → Segment
  wildcard : Segment

-- `{id}` is the only wildcard of the patterns
abbrev segment_of : String → Segment
segment_of s = if s == "{id}" then wildcard else literal s

unfoldable pub pattern_of : String → List Segment
unfolding segments
pattern_of p = map segment_of (segments p)

-- The path value of the wildcard, "" without one; `none` if the pattern does not match. A wildcard
-- stands for one segment that is not empty; net/http takes one that unescapes to "/" for the end of
-- a path, which a wildcard does not match.
unfoldable pub match : List Segment → List String → Option String
match [] [] = some ""
match (literal t ∷ p) (s ∷ ss) = let rest = match p ss in if s == t then rest else none
match (wildcard ∷ p) (s ∷ ss) =
    let rest = match p ss in if s == "" || s == "/" then none else Option.map (λ v. s) rest
match _ _ = none

-- a pattern with GET matches HEAD as well
unfoldable pub match_method : Method → Method → Bool
match_method get_method get_method = true
match_method get_method head = true
match_method post post = true
match_method patch patch = true
match_method delete_method delete_method = true
match_method _ _ = false

-- what is registered with `HandleFunc`: a pattern, and the route that a request to it takes
pub record Entry : Type 0 where
  pub method : Method
  pub pattern : String
  pub route : (id : String) → Incoming → Route

unfoldable pub match_entry : Entry → Method → List String → Option String
unfolding match match_method pattern_of
match_entry e m ss = if match_method e.method m then match (pattern_of e.pattern) ss else none

unfoldable pub find : List Entry → Method → List String → Option (String × Entry)
find [] m ss = none
find (e ∷ es) m ss =
    let rest = find es m ss in elim (match_entry e m ss) [ none ↦ rest | some id ↦ some (id, e) ]

abbrev at : Method → String → (String → Incoming → Route) → Entry
at m p r = record { method = m; pattern = p; route = r }

-- `limit` is 20 without the parameter, or where it is no number
abbrev limit_of : String → Option ℤ
limit_of v = if v == "" then none else parse_int v

-- what a request comes to: a redirect to its cleaned path, `handleHealthz`, a JSON route, or the
-- frontend behind "/", which matches every path
pub data Endpoint : Type 0 where
  moved : String → Endpoint
  health : Endpoint
  json : Route → Endpoint
  frontend : Endpoint

abbrev pub route_or_frontend : Incoming → Option (String × Entry) → Endpoint
route_or_frontend q none = frontend
route_or_frontend q (some (id, e)) = json (e.route id q)

unfoldable pub is_health : Method → List String → Bool
unfolding match match_method pattern_of
is_health m ss = match_method get_method m && is_some (match (pattern_of "/healthz") ss)

module _ (d : Decoders) where
  -- the JSON routes, in the order of `routes`; `dispatch` has the two other registrations
  unfoldable pub entries : List Entry
  unfolding parse_int
  entries =
      at get_method "/api/v1/status" (λ id q. status)
      ∷ at post "/api/v1/setup" (λ id q. setup (d.setup_req q.body))
      ∷ at post "/api/v1/auth/login" (λ id q. login (d.login_req q.body))
      ∷ at post "/api/v1/auth/logout" (λ id q. logout)
      ∷ at get_method "/api/v1/auth/me" (λ id q. me)
      ∷ at post "/api/v1/auth/me/password" (λ id q. change_my_password (d.password_req q.body))
      ∷ at get_method "/api/v1/users" (λ id q. list_users)
      ∷ at post "/api/v1/users" (λ id q. create_user (d.create_user_req q.body))
      ∷ at delete_method "/api/v1/users/{id}" (λ id q. delete_user (parse_int id))
      ∷ at post "/api/v1/users/{id}/password"
          (λ id q. change_user_password (parse_int id) (d.password_req q.body))
      ∷ at patch "/api/v1/users/{id}" (λ id q. change_user_role (parse_int id) (d.role_req q.body))
      ∷ at get_method "/api/v1/workflow/meta" (λ id q. workflow_meta)
      ∷ at get_method "/api/v1/machines"
          (λ id q. search_machines (q.query "q") (limit_of (q.query "limit")))
      ∷ at get_method "/api/v1/requests"
          (λ id q. list_requests (q.query "status") (q.query "open" == "1"))
      ∷ at post "/api/v1/requests" (λ id q. create_request (d.create_request_req q.body))
      ∷ at get_method "/api/v1/requests/{id}" (λ id q. get_request (parse_int id))
      ∷ at post "/api/v1/requests/{id}/claim" (λ id q. claim_request (parse_int id))
      ∷ at post "/api/v1/requests/{id}/take-over" (λ id q. take_over_request (parse_int id))
      ∷ at post "/api/v1/requests/{id}/transition"
          (λ id q. transition_request (parse_int id) (d.transition_req q.body))
      ∷ at post "/api/v1/requests/{id}/priority"
          (λ id q. set_priority (parse_int id) (d.priority_req q.body))
      ∷ []

  unfoldable pub dispatch : Incoming → Endpoint
  unfolding find match_entry entries is_health
  dispatch q =
      let ss = map d.unescape (segments q.escaped_path) in
      let m = q.request.method in
      if not (d.clean q.escaped_path == q.escaped_path)
      then moved (d.clean q.escaped_path)
      else if is_health m ss
      then health
      else route_or_frontend q (find entries m ss)
