-- ===== src/Http/Served.antt =====
-- The same four routes, from the request that comes in: the checks of server.go and middleware.go
-- before the handler.
use starfighter_workflow.Common.{
  ℕ, suc, ◌+◌, ℤ, =ℤ_iff, String, true, false, Option, some, ◌≡◌, refl, ap, ◌∙◌, ◌==◌, ltb,
}
use starfighter_workflow.Sql.Rows.{first, first-holds}
use starfighter_workflow.Db.{Db, UserRow, SessionRow, is_user, is_known}
use starfighter_workflow.Db.Exec.{World, outcome, IsHealthy}
use starfighter_workflow.Auth.{Bcrypt, scan_user, session_ttl, has_token}
use starfighter_workflow.Auth.Accounts
use starfighter_workflow.Auth.Sessions.{extend}
use starfighter_workflow.Repair.Lifecycle
use starfighter_workflow.Http.{HttpRequest, extract_token, require_auth}
use starfighter_workflow.Http.Routes.{
  Route, claim_request, take_over_request, transition_request, set_priority, access, authorized,
  changes_state, serve,
}
use starfighter_workflow.Http.Admitted.{slid, same_origin-own, require_auth-admitted}
use starfighter_workflow.Http.Replies.{
  Change, claiming, taking_over, moving, ranking, handler, reply_spec, handler-reply_spec,
}

abbrev pub route_of : Change → Option ℤ → Route
route_of claiming id = claim_request id
route_of taking_over id = take_over_request id
route_of (moving to) id = transition_request id to
route_of (ranking priority) id = set_priority id priority

serve-authorized :
    (bcrypt : Bcrypt) (host_of : String → Option String) (c : Change) (id : Option ℤ)
    (r : HttpRequest)
    → (r.origin == "") ≡ false
    → host_of r.origin ≡ some r.host
    → serve bcrypt host_of (route_of c id) r ≡ require_auth (handler c id) r
unfolding serve changes_state access authorized
serve-authorized bcrypt host_of claiming id r origin own = same_origin-own host_of _ r origin own
serve-authorized bcrypt host_of taking_over id r origin own = same_origin-own host_of _ r origin own
serve-authorized bcrypt host_of (moving to) id r origin own = same_origin-own host_of _ r origin own
serve-authorized bcrypt host_of (ranking p) id r origin own = same_origin-own host_of _ r origin own

-- the owner of a session is known to the foreign keys
owner-is_known :
    (d : Db) (id : ℤ) {u : UserRow}
    → first (is_user id) d.users ≡ some u
    → is_known d (some u.id) ≡ true
owner-is_known d id owner =
    rw ((=ℤ_iff _ _).0 (first-holds (is_user id) d.users owner)) (rw owner refl)

extend-IsSound :
    (token : String) (t : ℕ) (d : Db) → Lifecycle.IsSound d → Lifecycle.IsSound (extend token t d)
extend-IsSound token t d s = record { rows = s.rows; keys = s.keys; linked = s.linked }

module _ (c : Change) (id : Option ℤ) (r : HttpRequest) (w : World) (healthy : IsHealthy w)
    (accounts : Accounts.IsSound w.db) (requests : Lifecycle.IsSound w.db) where
  module _ {s : SessionRow} {u : UserRow} (present : (extract_token r == "") ≡ false)
      (found : first (has_token (extract_token r)) w.db.sessions ≡ some s)
      (fresh : ltb (w.clock w.tick) s.expires_at ≡ true)
      (owner : first (is_user s.user_id) w.db.users ≡ some u) where
    -- With no failing statement and no interruption, in sound accounts and requests, a request of
    -- the site itself with the token of a session that is live and has an owner: the routes that
    -- claim, take over, move and rank a request make the session good for another 12 hours, and
    -- then answer and change the database for the owner as `reply_spec` says: 400 to an id or a
    -- body that cannot be read, to a text that is no status and to one that is no priority, 404 to
    -- a request that does not exist, 409 to a change that the row does not allow, each without a
    -- further change, and otherwise 200 with the new row, which is stored.
    pub serve-reply_spec :
        (bcrypt : Bcrypt) (host_of : String → Option String)
        → (r.origin == "") ≡ false
        → host_of r.origin ≡ some r.host
        → outcome (serve bcrypt host_of (route_of c id) r) w
          ≡ reply_spec c
              (scan_user u)
              ((slid r w).clock (slid r w).tick)
              ((slid r w).clock (suc (slid r w).tick))
              id
              (slid r w).db
    serve-reply_spec bcrypt host_of origin own =
        ap (λ p. outcome p w) (serve-authorized bcrypt host_of c id r origin own)
        ∙ require_auth-admitted r w healthy accounts (handler c id) present found fresh owner
        ∙ handler-reply_spec c id (scan_user u) r (slid r w) healthy
            (extend-IsSound (extract_token r) (w.clock w.tick + session_ttl) w.db requests)
            (owner-is_known w.db s.user_id owner)
