-- ===== src/Http/Managed.antt =====
-- The four routes of user_handlers.go that change the accounts, from the request of an admin to the
-- reply.
use starfighter_workflow.Common.{
  ℕ, suc, ℤ, String, true, false, Option, none, some, ◌≡◌, refl, ap, ◌∙◌, ◌==◌, ltb, Result,
  if◌then◌else◌,
}
use starfighter_workflow.Sql.Rows.{first}
use starfighter_workflow.Db.{Db, UserRow, SessionRow, is_user}
use starfighter_workflow.Db.Exec.{World, outcome, IsHealthy}
use starfighter_workflow.Auth
use starfighter_workflow.Auth.{Bcrypt, role_admin, has_token}
use starfighter_workflow.Auth.Accounts
use starfighter_workflow.Auth.Enrols.{enrol_spec, create_user-enrol_spec}
use starfighter_workflow.Auth.Deletes.{delete_spec, delete_by_id-delete_spec}
use starfighter_workflow.Auth.Passwords.{hashed, change_spec, change_password-change_spec}
use starfighter_workflow.Auth.Roles.{role_spec, change_role-role_spec}
use starfighter_workflow.Http.{
  HttpRequest, Reply, failed, done, untouched, ok_status, user, extract_token, Handler,
  require_admin,
}
use starfighter_workflow.Http.Admitted.{
  refused, replied, or_reply-replied, slid, same_origin-own, require_auth-admitted,
}
use starfighter_workflow.Http.Handlers.{
  CreateUserReq, decoded, path_id, respond_user_err, create_user_err, handle_create_user,
  handle_delete_user, handle_change_user_password, handle_change_user_role,
}
use starfighter_workflow.Http.Routes
use starfighter_workflow.Http.Routes.{Route, access, authorized, changes_state, serve}

-- what an admin asks for, with what the body decodes to and the id of the path
pub data Management : Type 0 where
  enrolling : Option CreateUserReq → Management
  removing : Option ℤ → Management
  resetting appointing : Option ℤ → Option String → Management

abbrev pub managing : Management → Route
managing (enrolling body) = Routes.create_user body
managing (removing id) = Routes.delete_user id
managing (resetting id body) = Routes.change_user_password id body
managing (appointing id body) = Routes.change_user_role id body

abbrev handler : Bcrypt → Management → Handler
handler bcrypt (enrolling body) = handle_create_user bcrypt body
handler bcrypt (removing id) = handle_delete_user id
handler bcrypt (resetting id body) = handle_change_user_password bcrypt id body
handler bcrypt (appointing id body) = handle_change_user_role id body

-- the statuses of net/http for a user who is changed, and for one who is added
abbrev status_of : Auth.Error → Reply
status_of Auth.user_not_found = failed 404
status_of Auth.last_admin = failed 409
status_of Auth.bad_role = failed 400
status_of Auth.password_too_short = failed 400
status_of _ = failed 500

abbrev enrol_status_of : Auth.Error → Reply
enrol_status_of Auth.user_exists = failed 409
enrol_status_of _ = failed 400

abbrev enrolled_reply : Auth.User → Reply
enrolled_reply u = done 201 untouched (user u)

abbrev reply_to : Result Auth.Error Unit × Db → Result Reply Reply × Db
reply_to = replied status_of (λ _. done 200 untouched ok_status)

abbrev or_user : String → String
or_user role = if role == "" then "user" else role

-- The reply that the accounts call for: `t` is the time of the account that is added, and `hash` and
-- `rehash` what bcrypt makes of the password of a new user and of one who has an account.
abbrev pub manage_spec :
    Management → ℕ → (hash rehash : String → Option String) → Db → Result Reply Reply × Db
manage_spec (enrolling none) t hash rehash d = refused d
manage_spec (enrolling (some q)) t hash rehash d =
    replied enrol_status_of enrolled_reply
      (enrol_spec q.username q.password (or_user q.role) q.display_name t (hash q.password) d)
manage_spec (removing none) t hash rehash d = refused d
manage_spec (removing (some id)) t hash rehash d = reply_to (delete_spec id d)
manage_spec (resetting none body) t hash rehash d = refused d
manage_spec (resetting (some id) none) t hash rehash d = refused d
manage_spec (resetting (some id) (some p)) t hash rehash d =
    reply_to (change_spec id p (rehash p) d)
manage_spec (appointing none body) t hash rehash d = refused d
manage_spec (appointing (some id) none) t hash rehash d = refused d
manage_spec (appointing (some id) (some role)) t hash rehash d = reply_to (role_spec id role d)

respond-status_of : (e : Auth.Error) → respond_user_err e ≡ status_of e
unfolding respond_user_err
respond-status_of Auth.user_exists = refl
respond-status_of Auth.invalid_login = refl
respond-status_of Auth.session_not_found = refl
respond-status_of Auth.user_not_found = refl
respond-status_of Auth.last_admin = refl
respond-status_of Auth.bad_role = refl
respond-status_of Auth.password_too_short = refl
respond-status_of Auth.username_required = refl
respond-status_of Auth.storage = refl

create-status_of : (e : Auth.Error) → create_user_err e ≡ enrol_status_of e
unfolding create_user_err
create-status_of Auth.user_exists = refl
create-status_of Auth.invalid_login = refl
create-status_of Auth.session_not_found = refl
create-status_of Auth.user_not_found = refl
create-status_of Auth.last_admin = refl
create-status_of Auth.bad_role = refl
create-status_of Auth.password_too_short = refl
create-status_of Auth.username_required = refl
create-status_of Auth.storage = refl

-- the spec at the moment of a world
abbrev pub manage_spec_at : Bcrypt → Management → World → Result Reply Reply × Db
manage_spec_at bcrypt c w =
    manage_spec c (w.clock (suc w.tick)) (bcrypt.generate (w.random w.tick))
      (λ p. hashed bcrypt p w) w.db

module _ (bcrypt : Bcrypt) where
  -- the handlers of the four routes, once the admin is known
  handler-manage_spec :
      (c : Management) (r : HttpRequest) (w : World)
      → IsHealthy w
      → outcome (handler bcrypt c r) w ≡ manage_spec_at bcrypt c w
  unfolding handle_create_user handle_delete_user handle_change_user_password
      handle_change_user_role path_id decoded
  handler-manage_spec (enrolling none) r w healthy = refl
  handler-manage_spec (removing none) r w healthy = refl
  handler-manage_spec (resetting none body) r w healthy = refl
  handler-manage_spec (resetting (some id) none) r w healthy = refl
  handler-manage_spec (appointing none body) r w healthy = refl
  handler-manage_spec (appointing (some id) none) r w healthy = refl
  handler-manage_spec (enrolling (some q)) r w healthy =
      or_reply-replied enrol_status_of enrolled_reply create-status_of
        (Auth.create_user bcrypt q.username q.password (or_user q.role) q.display_name) w
      ∙ ap (replied enrol_status_of enrolled_reply) (
          create_user-enrol_spec bcrypt w healthy q.username q.password (or_user q.role)
            q.display_name)
  handler-manage_spec (removing (some id)) r w healthy =
      or_reply-replied status_of _ respond-status_of (Auth.delete_by_id id) w
      ∙ ap reply_to (delete_by_id-delete_spec id w healthy)
  handler-manage_spec (resetting (some id) (some p)) r w healthy =
      or_reply-replied status_of _ respond-status_of (Auth.change_password bcrypt id p) w
      ∙ ap reply_to (change_password-change_spec bcrypt id p w healthy)
  handler-manage_spec (appointing (some id) (some role)) r w healthy =
      or_reply-replied status_of _ respond-status_of (Auth.change_role id role) w
      ∙ ap reply_to (change_role-role_spec id role w healthy)

  serve-managed :
      (host_of : String → Option String) (c : Management) (r : HttpRequest)
      → (r.origin == "") ≡ false
      → host_of r.origin ≡ some r.host
      → serve bcrypt host_of (managing c) r ≡ require_admin (λ u. handler bcrypt c) r
  unfolding serve changes_state access authorized
  serve-managed host_of (enrolling b) r origin own = same_origin-own host_of _ r origin own
  serve-managed host_of (removing id) r origin own = same_origin-own host_of _ r origin own
  serve-managed host_of (resetting id b) r origin own = same_origin-own host_of _ r origin own
  serve-managed host_of (appointing id b) r origin own = same_origin-own host_of _ r origin own

  -- With no failing statement and no interruption, in sound accounts, a request of the site itself
  -- with the token of a session that is live and belongs to an admin: the routes that add, remove,
  -- reset and appoint a user make the session good for another 12 hours, and then answer and change
  -- the database as `manage_spec` says: 400 to an id or a body that cannot be read, to a text that
  -- is no role and to a short password, 404 to a user who does not exist, 409 to the removal or the
  -- demotion of the only admin, 409 to a name that is taken and 400 to any other new user who is
  -- refused, 500 to a new password that bcrypt does not hash, each without a further change; and
  -- otherwise 201 with the new user, or 200, with the change that was asked for and no other.
  pub serve-manage_spec :
      (host_of : String → Option String) (c : Management) (r : HttpRequest) (w : World)
      → IsHealthy w
      → Accounts.IsSound w.db
      → {s : SessionRow} {u : UserRow} → (extract_token r == "") ≡ false
      → first (has_token (extract_token r)) w.db.sessions ≡ some s
      → ltb (w.clock w.tick) s.expires_at ≡ true
      → first (is_user s.user_id) w.db.users ≡ some u
      → (u.role == role_admin) ≡ true
      → (r.origin == "") ≡ false
      → host_of r.origin ≡ some r.host
      → outcome (serve bcrypt host_of (managing c) r) w ≡ manage_spec_at bcrypt c (slid r w)
  unfolding require_admin
  serve-manage_spec host_of c r w healthy accounts present found fresh owner admin origin own =
      ap (λ p. outcome p w) (serve-managed host_of c r origin own)
      ∙ require_auth-admitted r w healthy accounts _ present found fresh owner
      ∙ rw admin (handler-manage_spec c r (slid r w) healthy)
