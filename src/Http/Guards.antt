-- ===== src/Http/Guards.antt =====
-- Who gets through the middleware: sessions and admins.
use mathlib.Core.Bool.{false≢true}
use starfighter_workflow.Common.{
  String, Bool, true, false, not, Option, none, ◌≡◌, ◌⊎◌, refl, ap, ◌∙◌, ◌==◌, arith, Result, ok,
  err, if◌then◌else◌, Bool-cases, inl, inr,
}
use starfighter_workflow.Sql.Rows.{first}
use starfighter_workflow.Db.{Db}
use starfighter_workflow.Db.Exec.{World, Prog, ret, raise, step, ◌>>=◌, run, outcome, IsHealthy}
use starfighter_workflow.Auth.{Bcrypt, User, session_not_found, role_admin, is_live, lookup}
use starfighter_workflow.Auth.Accounts
use starfighter_workflow.Auth.Sessions.{lookup_spec, lookup-lookup_spec, lookup_refused}
use starfighter_workflow.Http.{
  HttpRequest, Reply, failed, Handler, or_reply, extract_token, require_auth, require_admin,
  match_origin, require_same_origin,
}
use starfighter_workflow.Http.Routes.{
  Route, Access, anyone, users, admins, access, authorized, serve,
}

-- what follows a call that fails, or returns
module _ {E A B : Type 0} (f : E → Reply) (k : A → Prog Reply B) where
  or_reply-err :
      (m : Prog E A) (w : World) {e : E}
      → (run m w).0 ≡ err e
      → outcome (or_reply m f >>= k) w ≡ (err (f e), (run m w).1.db)
  or_reply-err (ret a) w h = cc
  or_reply-err (raise x) w h = cc
  or_reply-err (step g m) w h = or_reply-err (m w) (g w) h

  pub or_reply-ok :
      (m : Prog E A) (w : World) {a : A}
      → (run m w).0 ≡ ok a
      → run (or_reply m f >>= k) w ≡ run (k a) (run m w).1
  or_reply-ok (ret x) w h = cc
  or_reply-ok (raise x) w h = cc
  or_reply-ok (step g m) w h = or_reply-ok (m w) (g w) h

-- the routes that need a session, and those that need an admin
abbrev pub needs_session : Access → Bool
needs_session (anyone h) = false
needs_session _ = true

abbrev pub needs_admin : Access → Bool
needs_admin (admins h) = true
needs_admin _ = false

-- what a refusal is: 401 or 403
abbrev pub IsRefused : {A : Type 0} → Result Reply A → Type 0
IsRefused reply = (reply ≡ err (failed 401)) ⊎ (reply ≡ err (failed 403))

module _ (w : World) (healthy : IsHealthy w) (sound : Accounts.IsSound w.db) (r : HttpRequest) where
  module _ (dead : first (is_live (extract_token r) (w.clock w.tick)) w.db.sessions ≡ none) where
    require_auth-refused :
        (next : User → Handler) → outcome (require_auth next r) w ≡ (err (failed 401), w.db)
    unfolding require_auth
    require_auth-refused next = elim (Bool-cases (extract_token r == "")) [
      | inl empty ↦ rw empty
      | inr token ↦ rw token (
          or_reply-err (λ e. failed 401) (λ u. next u r) (lookup (extract_token r)) w
            (ap (λ o. o.0) refused)
          ∙ ap (λ d. (err (failed 401), d)) (ap (λ o. o.1) refused))
    ]
      where
        refused : outcome (lookup (extract_token r)) w ≡ (err session_not_found, w.db)
        refused = lookup_refused (extract_token r) w healthy sound dead

    authorized-refused :
        (bcrypt : Bcrypt) (host_of : String → Option String) (a : Access)
        → needs_session a ≡ true
        → outcome (authorized bcrypt host_of a r) w ≡ (err (failed 401), w.db)
    unfolding authorized require_admin
    authorized-refused bcrypt host_of (anyone h) e = absurd (false≢true e)
    authorized-refused bcrypt host_of (users h) e = require_auth-refused h
    authorized-refused bcrypt host_of (admins h) e = require_auth-refused _

  module _ {u : User} (known : (lookup_spec (extract_token r) (w.clock w.tick) w.db).0 ≡ ok u)
      (other : (u.role == role_admin) ≡ false) where
    abbrev after_lookup : Db
    after_lookup = (lookup_spec (extract_token r) (w.clock w.tick) w.db).1

    looked :
        outcome (lookup (extract_token r)) w ≡ lookup_spec (extract_token r) (w.clock w.tick) w.db
    looked = lookup-lookup_spec (extract_token r) w healthy sound

    require_admin-refused :
        (next : User → Handler)
        → (extract_token r == "") ≡ false
        → outcome (require_admin next r) w ≡ (err (failed 403), after_lookup)
    unfolding require_admin require_auth
    require_admin-refused next token = rw token (
        ap (λ (v : Result Reply Reply × World). (v.0, v.1.db))
          (or_reply-ok (λ e. failed 401)
            (λ v. if not (v.role == role_admin) then raise (failed 403) else next v r)
            (lookup (extract_token r)) w (ap (λ o. o.0) looked ∙ known))
        ∙ (rw other (ap (λ d. (err (failed 403), d)) (ap (λ o. o.1) looked))))

    require_admin-token :
        (next : User → Handler)
        → (outcome (require_admin next r) w ≡ (err (failed 401), w.db))
          ⊎ (outcome (require_admin next r) w ≡ (err (failed 403), after_lookup))
    require_admin-token next = elim (Bool-cases (extract_token r == "")) [
      | inl empty ↦ inl (unfold require_admin in unfold require_auth in rw empty)
      | inr token ↦ inr (require_admin-refused next token)
    ]

module _ (bcrypt : Bcrypt) (host_of : String → Option String) (route : Route)
    (r : HttpRequest) where
  -- the check of the origin lets a request through or answers 403
  serve-cases :
      (serve bcrypt host_of route r ≡ authorized bcrypt host_of (access bcrypt host_of route) r)
      ⊎ (serve bcrypt host_of route r ≡ raise (failed 403))
  unfolding serve require_same_origin match_origin
  serve-cases = ground arith

-- With no failing statement and no interruption, in sound accounts, a request whose token has no
-- live session gets 401 or 403 from every route that needs a session, and changes nothing.
pub serve-IsRefused :
    (bcrypt : Bcrypt) (host_of : String → Option String) (route : Route) (r : HttpRequest)
    (w : World)
    → IsHealthy w
    → Accounts.IsSound w.db
    → needs_session (access bcrypt host_of route) ≡ true
    → first (is_live (extract_token r) (w.clock w.tick)) w.db.sessions ≡ none
    → IsRefused (outcome (serve bcrypt host_of route r) w).0
      × ((outcome (serve bcrypt host_of route r) w).1 ≡ w.db)
serve-IsRefused bcrypt host_of route r w healthy sound needs dead =
    elim (serve-cases bcrypt host_of route r) [
      | inl through ↦
          let e : outcome (serve bcrypt host_of route r) w ≡ (err (failed 401), w.db) =
            ap (λ p. outcome p w) through
            ∙ authorized-refused w healthy sound r dead bcrypt host_of _ needs in
          (inl (ap (λ o. o.0) e), ap (λ o. o.1) e)
      | inr stopped ↦
          let e : outcome (serve bcrypt host_of route r) w ≡ (err (failed 403), w.db) =
            ap (λ p. outcome p w) stopped in
          (inr (ap (λ o. o.0) e), ap (λ o. o.1) e)
    ]

-- what a run leaves that was refused: the database as it was, or with the expiry of its session moved
abbrev pub IsTurnedAway : Db → Db → {A : Type 0} → Result Reply A × Db → Type 0
IsTurnedAway before slid result = IsRefused result.0 × ((result.1 ≡ before) ⊎ (result.1 ≡ slid))

IsTurnedAway-401 :
    (before slid : Db) {A : Type 0} {result : Result Reply A × Db}
    → result ≡ (err (failed 401), before)
    → IsTurnedAway before slid result
IsTurnedAway-401 before slid e = (inl (ap (λ o. o.0) e), inl (ap (λ o. o.1) e))

IsTurnedAway-403 :
    (before slid : Db) {A : Type 0} {result : Result Reply A × Db}
    → (result ≡ (err (failed 403), before)) ⊎ (result ≡ (err (failed 403), slid))
    → IsTurnedAway before slid result
IsTurnedAway-403 before slid (inl e) = (inr (ap (λ o. o.0) e), inl (ap (λ o. o.1) e))
IsTurnedAway-403 before slid (inr e) = (inr (ap (λ o. o.0) e), inr (ap (λ o. o.1) e))

authorized-IsTurnedAway :
    (bcrypt : Bcrypt) (host_of : String → Option String) (a : Access) (r : HttpRequest) (w : World)
    (healthy : IsHealthy w) (sound : Accounts.IsSound w.db) {u : User}
    → (lookup_spec (extract_token r) (w.clock w.tick) w.db).0 ≡ ok u
    → (u.role == role_admin) ≡ false
    → needs_admin a ≡ true
    → IsTurnedAway w.db
        (lookup_spec (extract_token r) (w.clock w.tick) w.db).1
        (outcome (authorized bcrypt host_of a r) w)
unfolding authorized
authorized-IsTurnedAway bcrypt host_of (anyone h) r w healthy sound known other e =
    absurd (false≢true e)
authorized-IsTurnedAway bcrypt host_of (users h) r w healthy sound known other e =
    absurd (false≢true e)
authorized-IsTurnedAway bcrypt host_of (admins h) r w healthy sound known other e =
    elim (require_admin-token w healthy sound r known other (λ u. h)) [
      | inl missing ↦ IsTurnedAway-401 _ _ missing
      | inr known ↦ IsTurnedAway-403 _ _ (inr known)
    ]

-- With no failing statement and no interruption, in sound accounts, a user who is no admin gets 401
-- or 403 from every route of user management; the database stays as it was, but for the expiry of
-- the session.
pub serve-IsTurnedAway :
    (bcrypt : Bcrypt) (host_of : String → Option String) (route : Route) (r : HttpRequest)
    (w : World) {u : User}
    → IsHealthy w
    → Accounts.IsSound w.db
    → needs_admin (access bcrypt host_of route) ≡ true
    → (lookup_spec (extract_token r) (w.clock w.tick) w.db).0 ≡ ok u
    → (u.role == role_admin) ≡ false
    → IsTurnedAway w.db
        (lookup_spec (extract_token r) (w.clock w.tick) w.db).1
        (outcome (serve bcrypt host_of route r) w)
serve-IsTurnedAway bcrypt host_of route r w healthy sound needs known other =
    elim (serve-cases bcrypt host_of route r) [
      | inl through ↦
          rw through (authorized-IsTurnedAway bcrypt host_of _ r w healthy sound known other needs)
      | inr stopped ↦ rw stopped (IsTurnedAway-403 _ _ (inl refl))
    ]
