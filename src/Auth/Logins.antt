-- ===== src/Auth/Logins.antt =====
-- `Login` of auth.go, and `Lookup` of the token that it gives.
use starfighter_workflow.Common.{
  ℕ, suc, ◌+◌, ◌<◌, ℤ, =ℤ_refl, String, true, false, Option, none, some, List, [], ◌∷◌, ◌++◌, ◌≡◌,
  refl, ap, ◌∙◌, eq_iff, ltb, arith, ok, err, trim_space,
}
use starfighter_workflow.Sql.Rows.{first, update, first_unique, first-append, first-update}
use starfighter_workflow.Db.{Db, UserRow, is_user}
use starfighter_workflow.Db.Exec.{World, run, outcome, IsHealthy, commit_if}
use starfighter_workflow.Db.Keeps.{Keeps-run}
use starfighter_workflow.Auth.{
  invalid_login, scan_user, Bcrypt, or_missing, has_name, has_token, new_session, insert_session,
  update_user, issue_session, login, lookup, session_ttl,
}
use starfighter_workflow.Auth.Token.{encode}
use starfighter_workflow.Auth.Accounts.{IsSound}
use starfighter_workflow.Auth.Sound.{IsSound-IsKept}
use starfighter_workflow.Auth.Operations.{login-Keeps}
use starfighter_workflow.Auth.Sessions.{lookup_spec, lookup-lookup_spec}

ltb-true : (a b : ℕ) → a < b → ltb a b ≡ true
ltb-true a b h = ground arith

abbrev pub seen_at : ℕ → UserRow → UserRow
seen_at t u = record u { last_login_at = some t }

-- the database after a login of user `id` at time `t`
abbrev pub logged_in : String → ℤ → ℕ → Db → Db
logged_in token id t d = record d {
  sessions = d.sessions ++ new_session token id t ∷ [];
  users = update (is_user id) (seen_at t) d.users;
}

module _ (bcrypt : Bcrypt) (username password : String) (w : World) (healthy : IsHealthy w) where
  abbrev named : Option UserRow
  named = first (has_name (trim_space username)) w.db.users

  -- An unknown name and a wrong password are told apart by nothing, and change nothing.
  pub login-unknown :
      named ≡ none → outcome (login bcrypt username password) w ≡ (err invalid_login, w.db)
  unfolding login or_missing
  login-unknown missing = rw (healthy w.tick, run) (rw missing)

  pub login-wrong :
      {u : UserRow}
      → named ≡ some u
      → bcrypt.compare u.password_hash password ≡ false
      → outcome (login bcrypt username password) w ≡ (err invalid_login, w.db)
  unfolding login or_missing
  login-wrong found wrong = rw (healthy w.tick, run) (rw found (rw wrong))

  module _ (sound : IsSound w.db) {u : UserRow} (found : named ≡ some u)
      (right : bcrypt.compare u.password_hash password ≡ true) {raw : List ℕ}
      (drawn : w.random (suc w.tick) ≡ some raw)
      (fresh : first (has_token (encode raw)) w.db.sessions ≡ none) where
    abbrev at : ℕ
    at = w.clock (suc (suc w.tick))

    row_of_user : first (is_user u.id) w.db.users ≡ some u
    row_of_user =
        first_unique (is_user u.id) (has_name (trim_space username)) w.db.users
          (sound.keys.unique u.id) found (=ℤ_refl u.id)

    -- With no failing statement and no interruption, in sound accounts, for a user of the given
    -- name whose hash the password matches, and if the random source gives bytes whose token no
    -- session has, `Login` returns the token and the user, adds a session of 12 hours and stamps
    -- the last login.
    pub login-right : outcome (login bcrypt username password) w ≡ (
      ok (encode raw, scan_user (record u { last_login_at = none })),
      logged_in (encode raw) u.id at w.db,
    )
    unfolding login or_missing issue_session update_user insert_session commit_if
    login-right =
        rw (healthy w.tick, run)
          (rw found (
            rw right (
              rw drawn (
                rw (healthy (suc (suc (suc w.tick))), run)
                  (rw (fresh, row_of_user) (rw (healthy (suc (suc (suc (suc w.tick)))), run)))))))

    abbrev token : String
    token = encode raw

    abbrev after : Db
    after = logged_in token u.id at w.db

    new_session_found : first (has_token token) after.sessions ≡ some (new_session token u.id at)
    new_session_found =
        first-append (has_token token) w.db.sessions (new_session token u.id at ∷ []) fresh
        ∙ (unfold first in rw ((eq_iff token token).1 refl))

    user_seen : first (is_user u.id) after.users ≡ some (seen_at at u)
    user_seen =
        first-update (is_user u.id) (is_user u.id) (seen_at at) w.db.users (λ v h. refl)
        ∙ (rw (row_of_user, =ℤ_refl u.id))

    looked_up-after :
        (t : ℕ)
        → t < at + session_ttl
        → (lookup_spec token t after).0 ≡ ok (scan_user (seen_at at u))
    unfolding lookup_spec
    looked_up-after t soon =
        rw new_session_found (rw (ltb-true t (at + session_ttl) soon) (rw user_seen))

    -- Under the conditions of `login-right`, the token is good: on the database that the login
    -- left, a lookup less than 12 hours later with no failing statement finds the user.
    pub login-lookup :
        (next : World)
        → IsHealthy next
        → next.db ≡ (outcome (login bcrypt username password) w).1
        → next.clock next.tick < at + session_ttl
        → (outcome (lookup token) next).0 ≡ ok (scan_user (seen_at at u))
    login-lookup next next_healthy same soon =
        ap (λ o. o.0) (lookup-lookup_spec token next next_healthy next_sound)
        ∙ ap (λ d. (lookup_spec token (next.clock next.tick) d).0)
            (same ∙ ap (λ o. o.1) login-right)
        ∙ looked_up-after (next.clock next.tick) soon
      where
        next_sound : IsSound next.db
        next_sound =
            rw same
              (Keeps-run (login-Keeps IsSound IsSound-IsKept bcrypt username password) w sound)
