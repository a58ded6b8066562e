-- ===== src/Http/Cookies.antt =====
-- cookie.go: the cookies that the replies set. `time.Now` is the argument `now`, in Unix seconds.
use starfighter_workflow.Common.{
  ℕ, ◌+◌, ℤ, pos, negsuc, String, Bool, true, Option, none, some, ◌==◌, if◌then◌else◌,
}
use starfighter_workflow.Auth.{session_ttl}
use starfighter_workflow.Http.{HttpRequest, CookieChange, untouched, cleared, set_to}

-- an `http.Cookie`; its SameSite mode is Lax wherever one is set
pub record Cookie : Type 0 where
  pub name : String
  pub value : String
  pub path : String
  pub http_only : Bool
  pub lax : Bool
  pub secure : Bool
  pub expires : ℕ
  pub max_age : ℤ

abbrev pub session_cookie_name : String
session_cookie_name = "sfw_session"

unfoldable pub is_https : HttpRequest → Bool
is_https r = if r.over_tls then true else r.forwarded_proto == "https"

unfoldable pub set_session_cookie : HttpRequest → String → (now : ℕ) → Cookie
unfolding is_https
set_session_cookie r token now = record {
  name = session_cookie_name;
  value = token;
  path = "/";
  http_only = true;
  lax = true;
  secure = is_https r;
  expires = now + session_ttl;
  max_age = pos session_ttl;
}

-- -1 is `negsuc 0`
unfoldable pub clear_session_cookie : HttpRequest → Cookie
unfolding is_https
clear_session_cookie r = record {
  name = session_cookie_name;
  value = "";
  path = "/";
  http_only = true;
  lax = true;
  secure = is_https r;
  expires = 0;
  max_age = negsuc 0;
}

-- the Set-Cookie header that a reply carries
unfoldable pub cookie_of : HttpRequest → (now : ℕ) → CookieChange → Option Cookie
unfolding set_session_cookie clear_session_cookie
cookie_of r now untouched = none
cookie_of r now cleared = some (clear_session_cookie r)
cookie_of r now (set_to token) = some (set_session_cookie r token now)
