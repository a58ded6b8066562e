-- ===== src/Http/FirstBoot.antt =====
-- The first boot: `handleSetup` on a database without users, and what its cookie is good for.
use Prim.Native.String.{len}
use mathlib.Core.Bool.{false≢true}
use mathlib.Core.Path.{subst}
use starfighter_workflow.Common.{
  ℕ, suc, ◌+◌, ◌<◌, pos, String, Bool, true, false, Option, none, some, List, [], ◌∷◌, ◌++◌, ◌≡◌,
  refl, sym, ap, ◌∙◌, ◌==◌, ltb, is_some, Result, ok, err, trim_space, All, if◌then◌else◌,
}
use starfighter_workflow.Sql.Rows.{first, count, update}
use starfighter_workflow.Sql.Collate.{nocase_eq, nocase_eq_iff}
use starfighter_workflow.Db.{Db, UserRow, SessionRow, is_known, is_user}
use starfighter_workflow.Db.Exec.{World, Prog, ret, raise, ◌>>=◌, run, outcome, elapse, IsHealthy}
use starfighter_workflow.Db.Keeps.{Keeps-run}
use starfighter_workflow.Auth
use starfighter_workflow.Auth.{
  Bcrypt, Error, User, role_admin, scan_user, new_user, session_ttl, has_name, has_token,
  valid_role, count_users, create_user, login,
}
use starfighter_workflow.Auth.Token.{encode}
use starfighter_workflow.Auth.Accounts
use starfighter_workflow.Auth.Sound.{IsSound-IsKept}
use starfighter_workflow.Auth.Operations.{create_user-Keeps}
use starfighter_workflow.Auth.Enrols.{run-create_user}
use starfighter_workflow.Auth.Logins.{logged_in, seen_at, login-right, login-lookup}
use starfighter_workflow.Http.{
  or_reply, HttpRequest, Reply, failed, done, untouched, set_to, user, session, require_auth,
  extract_token, Handler, is_read, require_same_origin,
}
use starfighter_workflow.Http.Routes.{me, setup, serve, changes_state, access, authorized}
use starfighter_workflow.Http.Handlers.{SetupReq, handle_setup, handle_me, decoded}
use starfighter_workflow.Http.Guards.{or_reply-ok}

no_users-sessions :
    (d : Db)
    → d.users ≡ []
    → (xs : List SessionRow) → All (λ s. is_known d (some s.user_id) ≡ true) xs
    → xs ≡ []
unfolding first
no_users-sessions d none_yet [] h = refl
no_users-sessions d none_yet (s ∷ xs) (h, hs) =
    absurd (false≢true (sym (ap (λ us. is_some (first (is_user s.user_id) us)) none_yet) ∙ h))

if_same : {A : Type 0} (b : Bool) (x : A) → (if b then x else x) ≡ x
if_same true x = refl
if_same Bool.false x = refl

-- without a cookie the origin does not matter
bare-same_origin :
    (host_of : String → Option String) (next : Handler) (r : HttpRequest)
    → is_some r.cookie ≡ false
    → require_same_origin host_of next r ≡ next r
unfolding require_same_origin
bare-same_origin host_of next r bare = rw bare (if_same (is_read r.method) (next r))

module _ (bcrypt : Bcrypt)
    (compare-generate : (salt : Option (List ℕ)) (password hash : String)
      → bcrypt.generate salt password ≡ some hash
      → bcrypt.compare hash password ≡ true)
    (req : SetupReq) (r : HttpRequest) (w : World) (healthy : IsHealthy w)
    (sound : Accounts.IsSound w.db) (none_yet : w.db.users ≡ [])
    (named : (trim_space req.username == "") ≡ false) (long : ltb (len req.password) 8 ≡ false)
    {hash : String} (hashed : bcrypt.generate (w.random (suc w.tick)) req.password ≡ some hash)
    {raw : List ℕ} (drawn : w.random (suc (suc (suc (suc (suc w.tick))))) ≡ some raw) where
  abbrev admin_row : UserRow
  admin_row =
      new_user (trim_space req.username) hash role_admin (trim_space req.display_name)
        (w.clock (suc (suc w.tick))) (pos (suc w.db.user_seq))

  abbrev with_admin : Db
  with_admin = record w.db { user_seq = suc w.db.user_seq; users = w.db.users ++ admin_row ∷ [] }

  -- after the count, and after the account
  abbrev counted : World
  counted = elapse w

  abbrev created : World
  created = record w { db = with_admin; tick = suc (suc (suc (suc w.tick))) }

  -- the token of the new session
  abbrev token : String
  token = encode raw

  abbrev login_time : ℕ
  login_time = w.clock (suc (suc (suc (suc (suc (suc w.tick))))))

  abbrev set_up : Db
  set_up = logged_in token admin_row.id login_time with_admin

  no_sessions : w.db.sessions ≡ []
  no_sessions = no_users-sessions w.db none_yet w.db.sessions sound.owners

  creates :
      run (create_user bcrypt req.username req.password role_admin req.display_name) counted
      ≡ (ok (scan_user admin_row), created)
  unfolding valid_role first
  creates =
      run-create_user bcrypt counted req.username req.password role_admin req.display_name healthy
        named refl long hashed (rw none_yet refl)

  created-IsSound : Accounts.IsSound with_admin
  created-IsSound =
      subst (λ (v : Result Error User × World). Accounts.IsSound v.1.db) creates
        (Keeps-run
          (create_user-Keeps Accounts.IsSound IsSound-IsKept bcrypt req.username req.password
            role_admin req.display_name)
          counted sound)

  admin_named : first (has_name (trim_space req.username)) with_admin.users ≡ some admin_row
  unfolding first
  admin_named =
      let same : nocase_eq (trim_space req.username) (trim_space req.username) ≡ true =
        (nocase_eq_iff _ _).1 refl in
      rw none_yet (rw same refl)

  unused : first (has_token token) w.db.sessions ≡ none
  unfolding first
  unused = rw no_sessions refl

  logs_in :
      outcome (login bcrypt req.username req.password) created
      ≡ (ok (token, scan_user admin_row), set_up)
  logs_in =
      login-right bcrypt req.username req.password created healthy created-IsSound admin_named
        (compare-generate _ req.password hash hashed) drawn unused

  abbrev after_login : User → String × User → Prog Reply Reply
  after_login u s = ret (done 201 (set_to s.0) (session u s.0))

  abbrev after_create : User → Prog Reply Reply
  after_create u =
      or_reply (login bcrypt req.username req.password) (λ e. failed 500) >>= after_login u

  abbrev after_count : ℕ → Prog Reply Reply
  after_count n =
      if ltb 0 n
      then raise (failed 409)
      else or_reply (create_user bcrypt req.username req.password role_admin req.display_name)
          (λ e. failed 400)
        >>= after_create

  counts : run count_users w ≡ (ok 0, counted)
  unfolding count_users count
  counts = rw (healthy w.tick, run) (rw none_yet refl)

  setup_reply :
      outcome (handle_setup bcrypt (some req) r) w
      ≡ (ok (done 201 (set_to token) (session (scan_user admin_row) token)), set_up)
  unfolding handle_setup decoded
  setup_reply =
      ap result (
        or_reply-ok (λ e. failed 500) after_count count_users w (ap (λ v. v.0) counts)
        ∙ ap (λ v. run (after_count 0) v.1) counts
        ∙ or_reply-ok (λ e. failed 400) after_create
            (create_user bcrypt req.username req.password role_admin req.display_name) counted
            (ap (λ v. v.0) creates)
        ∙ ap (λ v. run (after_create (scan_user admin_row)) v.1) creates
        ∙ or_reply-ok (λ e. failed 500) (after_login (scan_user admin_row))
            (login bcrypt req.username req.password) created (ap (λ o. o.0) logs_in))
      ∙ ap (λ d. (ok (done 201 (set_to token) (session (scan_user admin_row) token)), d))
          (ap (λ o. o.1) logs_in)
    where
      result : Result Reply Reply × World → Result Reply Reply × Db
      result v = (v.0, v.1.db)

  some_user : ltb 0 (count (λ u. true) set_up.users) ≡ true
  unfolding count update
  some_user = rw none_yet refl

  module _ (next : World) (next_healthy : IsHealthy next) (same : next.db ≡ set_up) where
    refused_again :
        (body : Option SetupReq) (v : HttpRequest)
        → outcome (handle_setup bcrypt body v) next ≡ (err (failed 409), next.db)
    unfolding handle_setup count_users
    refused_again body v =
        rw (next_healthy next.tick, run)
          (rw (ap (λ d. ltb 0 (count (λ u. true) d.users)) same ∙ some_user) refl)

    knows_admin :
        (q : HttpRequest)
        → extract_token q ≡ token
        → (token == "") ≡ false
        → next.clock next.tick < login_time + session_ttl
        → (outcome (require_auth handle_me q) next).0
          ≡ ok (done 200 untouched (user (scan_user (seen_at login_time admin_row))))
    unfolding require_auth handle_me
    knows_admin q ours present soon =
        rw (ours, present)
          (ap (λ v. v.0)
            (or_reply-ok (λ e. failed 401) (λ u. handle_me u q) (Auth.lookup token) next looked))
      where
        looked : (run (Auth.lookup token) next).0 ≡ ok (scan_user (seen_at login_time admin_row))
        looked =
            login-lookup bcrypt req.username req.password created healthy created-IsSound
              admin_named (compare-generate _ req.password hash hashed) drawn unused next
              next_healthy (same ∙ sym (ap (λ o. o.1) logs_in)) soon

  module _ (host_of : String → Option String) (next : World) (next_healthy : IsHealthy next) where
    -- With no failing statement and no interruption, in sound accounts without a user, given that
    -- bcrypt matches a password with every hash that it made of it: a setup without a cookie, with
    -- a name that is not blank and a password of at least 8 bytes that bcrypt hashes, answers 201
    -- with a new admin of that name and a session, if the random source gives bytes. On the database
    -- that it left, a request for /auth/me with the token, which is not empty, less than 12 hours
    -- later is answered with that admin, and any other setup without a cookie gets 409 and changes
    -- nothing.
    pub setup-me :
        is_some r.cookie ≡ false
        → next.db ≡ (outcome (serve bcrypt host_of (setup (some req)) r) w).1
        → next.clock next.tick < login_time + session_ttl
        → (q : HttpRequest) → extract_token q ≡ token
        → (token == "") ≡ false
        → ((outcome (serve bcrypt host_of (setup (some req)) r) w).0
            ≡ ok (done 201 (set_to token) (session (scan_user admin_row) token)))
          × ((outcome (serve bcrypt host_of me q) next).0
              ≡ ok (done 200 untouched (user (scan_user (seen_at login_time admin_row)))))
          × ((body : Option SetupReq) (v : HttpRequest)
              → is_some v.cookie ≡ false
              → outcome (serve bcrypt host_of (setup body) v) next ≡ (err (failed 409), next.db))
    unfolding serve changes_state access authorized
    setup-me bare left soon q ours present =
        let reply : outcome (serve bcrypt host_of (setup (some req)) r) w
            ≡ (ok (done 201 (set_to token) (session (scan_user admin_row) token)), set_up) =
          ap (λ p. outcome p w) (bare-same_origin host_of (handle_setup bcrypt (some req)) r bare)
          ∙ setup_reply in
        let same : next.db ≡ set_up = left ∙ ap (λ o. o.1) reply in
        (
          ap (λ o. o.0) reply,
          knows_admin next next_healthy same q ours present soon,
          λ body v bare_too.
              ap (λ p. outcome p next)
                (bare-same_origin host_of (handle_setup bcrypt body) v bare_too)
              ∙ refused_again next next_healthy same body v,
        )
