-- ===== src/Http.antt =====
-- internal/httpapi: requests, replies, session cookies and the middleware. A handler is a program
-- that ends with its reply: `raise` is a `writeErr` with its early return, `ret` the last
-- `writeJSON`. Decoding a body and parsing an id or a limit are the standard library's, so a route
-- takes what they gave.
pub mod Handlers
pub mod Routes
pub mod Mux
pub mod Server
pub mod Admitted
pub mod Cookies
pub mod Origin
pub mod Guards
pub mod Replies
pub mod Served
pub mod Managed
pub mod FirstBoot
pub mod Keeping
pub mod Progress
pub mod Steps
pub mod Requests
use Prim.Native.String.{[], ◌∷◌}
use Prim.Native.Char.{code}
use starfighter_workflow.Common.{
  ℕ, String, Bool, true, false, not, Option, none, some, List, ◌==◌, ◌=ℕ◌, if◌then◌else◌, is_some,
}
use starfighter_workflow.Db.Exec.{Prog, ret, raise, step, ◌>>=◌}
use starfighter_workflow.Auth
use starfighter_workflow.Auth.{User, role_admin, lookup}
use starfighter_workflow.Machines.{Machine}
use starfighter_workflow.Repair
use starfighter_workflow.Repair.States.{Status}

pub data Method : Type 0 where
  get_method head options post patch delete_method other_method : Method

-- what the middleware reads of a request; `cookie` is the value of `sfw_session`, if it is there
pub record HttpRequest : Type 0 where
  pub method : Method
  pub cookie : Option String
  pub authorization : String
  pub origin : String
  pub host : String
  pub over_tls : Bool
  pub forwarded_proto : String

-- the cookie that a reply sets, with `session_ttl`, or clears
pub data CookieChange : Type 0 where
  untouched cleared : CookieChange
  set_to : String → CookieChange

pub data Payload : Type 0 where
  ok_status : Payload
  needs_setup : Bool → Payload
  user : User → Payload
  users : List User → Payload
  session : User → String → Payload
  machines : List Machine → Payload
  request : Repair.Request → Payload
  requests : List Repair.Request → Payload
  workflow : List (Status × Bool × List Status) → List String → Payload
  health_text : Payload
  location : String → Payload

-- a failure is a status with a message; the message's text is left out
pub data Reply : Type 0 where
  failed : (status : ℕ) → Reply
  done : (status : ℕ) → CookieChange → Payload → Reply

abbrev pub Handler : Type 0
Handler = HttpRequest → Prog Reply Reply

-- `if err != nil { …; return }` around a call of a service
abbrev pub or_reply : {E A : Type 0} → Prog E A → (E → Reply) → Prog Reply A
or_reply (ret a) f = ret a
or_reply (raise e) f = raise (f e)
or_reply (step g m) f = step g (λ w. or_reply (m w) f)

-- what follows a prefix, `none` if the text does not begin with it
unfoldable pub after_prefix : String → String → Option String
after_prefix [] h = some h
after_prefix (c ∷ p) [] = none
after_prefix (c ∷ p) (d ∷ h) =
    let rest = after_prefix p h in if code c =ℕ code d then rest else none

-- an empty token counts as none
unfoldable pub bearer : String → String
unfolding after_prefix
bearer h = elim (after_prefix "Bearer " h) [ none ↦ "" | some token ↦ token ]

unfoldable pub extract_token : HttpRequest → String
unfolding bearer
extract_token r = elim r.cookie [
  | none ↦ bearer r.authorization
  | some value ↦ if not (value == "") then value else bearer r.authorization
]

pub require_auth : (User → Handler) → Handler
require_auth next r =
    if extract_token r == ""
    then raise (failed 401)
    else or_reply (lookup (extract_token r)) (λ e. failed 401) >>= λ u. next u r

pub require_admin : (User → Handler) → Handler
require_admin next =
    require_auth (λ u r. if not (u.role == role_admin) then raise (failed 403) else next u r)

unfoldable pub is_read : Method → Bool
is_read get_method = true
is_read head = true
is_read options = true
is_read _ = false

-- `Origin` against `Host`, once the URL is parsed; `none` is the parser's error
pub match_origin : Handler → HttpRequest → Option String → Prog Reply Reply
match_origin next r none = raise (failed 403)
match_origin next r (some host) = if not (host == r.host) then raise (failed 403) else next r

-- `host_of` is the host of an URL as `url.Parse` gives it
pub require_same_origin : (String → Option String) → Handler → Handler
unfolding match_origin
require_same_origin host_of next r =
    if is_read r.method
    then next r
    else if not (is_some r.cookie)
    then next r
    else if r.origin == ""
    then raise (failed 403)
    else match_origin next r (host_of r.origin)
