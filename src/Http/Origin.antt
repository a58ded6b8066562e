-- ===== src/Http/Origin.antt =====
-- Requests of other sites: what `requireSameOrigin` refuses.
use starfighter_workflow.Common.{
  String, true, false, Option, none, some, ◌≡◌, ◌≢◌, refl, ap, ◌==◌, eq_iff, is_some, Bool-cases,
  inl, inr,
}
use starfighter_workflow.Db.Exec.{raise}
use starfighter_workflow.Auth.{Bcrypt}
use starfighter_workflow.Http.{
  HttpRequest, failed, Handler, is_read, match_origin, require_same_origin,
}
use starfighter_workflow.Http.Routes.{Route, access, authorized, changes_state, serve}

module _ (host_of : String → Option String) (next : Handler) (r : HttpRequest) where
  match_origin-other :
      (host : Option String) → host ≢ some r.host → match_origin next r host ≡ raise (failed 403)
  unfolding match_origin
  match_origin-other none h = refl
  match_origin-other (some x) h = elim (Bool-cases (x == r.host)) [
    | inl same ↦ absurd (h (ap some ((eq_iff x r.host).0 same)))
    | inr other ↦ rw other
  ]

  same_origin-other :
      is_read r.method ≡ false
      → is_some r.cookie ≡ true
      → host_of r.origin ≢ some r.host
      → require_same_origin host_of next r ≡ raise (failed 403)
  unfolding require_same_origin
  same_origin-other writes cookie other =
      rw (writes, cookie)
        (elim (Bool-cases (r.origin == "")) [
          | inl empty ↦ rw empty
          | inr origin ↦ rw origin (match_origin-other (host_of r.origin) other)
        ])

-- A request that carries the session cookie and whose Origin is not its Host gets 403 from every
-- route that changes state, and no statement is made.
pub cross_origin_refused :
    (bcrypt : Bcrypt) (host_of : String → Option String) (route : Route) (r : HttpRequest)
    → changes_state bcrypt host_of route ≡ true
    → is_read r.method ≡ false
    → is_some r.cookie ≡ true
    → host_of r.origin ≢ some r.host
    → serve bcrypt host_of route r ≡ raise (failed 403)
unfolding serve
cross_origin_refused bcrypt host_of route r writes method cookie other = rw writes (
    same_origin-other host_of (authorized bcrypt host_of (access bcrypt host_of route)) r method
      cookie other)
