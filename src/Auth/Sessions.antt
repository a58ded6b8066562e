-- ===== src/Auth/Sessions.antt =====
-- `Lookup` of auth.go.
use starfighter_workflow.Common.{
  ℕ, suc, ◌+◌, ℤ, String, Bool, true, false, Option, none, some, ◌≡◌, refl, sym, ap, ◌∙◌, ltb, ◌=ℕ◌,
  Result, ok, err, Bool-cases, Option-cases, inl, inr, if◌then◌else◌,
}
use starfighter_workflow.Sql.Rows.{
  first, count, update, count-first-none, count-first-some, count-not_found, update-none,
  update_unique, update-found, first-update, first-holds, first-and-none,
}
use starfighter_workflow.Db.{Db, UserRow, SessionRow, is_user}
use starfighter_workflow.Db.Exec.{
  World, Prog, ret, raise, ◌>>=◌, run, elapse, query, outcome, IsHealthy, run-statement,
}
use starfighter_workflow.Auth.{
  Error, session_not_found, storage, User, scan_user, session_ttl, or_missing, has_token, is_live,
  slide_session, session_user, lookup,
}
use starfighter_workflow.Auth.Accounts.{IsSound}

-- the session of `token` good until `t`
abbrev pub extend : String → ℕ → Db → Db
extend token t d = record d {
  sessions = update (has_token token) (λ s. record s { expires_at = t }) d.sessions;
}

abbrev owner_of : Option UserRow → Result Error User
owner_of none = err session_not_found
owner_of (some u) = ok (scan_user u)

abbrev user_of : Db → ℤ → Result Error User
user_of d id = owner_of (first (is_user id) d.users)

abbrev looked_up : String → ℕ → Db → Option SessionRow → Result Error User × Db
looked_up token t d none = (err session_not_found, d)
looked_up token t d (some s) =
    if ltb t s.expires_at
    then (user_of d s.user_id, extend token (t + session_ttl) d)
    else (err session_not_found, d)

-- What `Lookup` promises: a session that is there and not expired at time `t` gives its user and is
-- good for another 12 hours; any other token is refused and changes nothing.
unfoldable pub lookup_spec : String → ℕ → Db → Result Error User × Db
lookup_spec token t d = looked_up token t d (first (has_token token) d.sessions)

session_user-found :
    (token : String) (d : Db) {s : SessionRow}
    → first (has_token token) d.sessions ≡ some s
    → session_user token d ≡ first (is_user s.user_id) d.users
unfolding session_user
session_user-found token d found = rw (found, session_user)

module _ (token : String) (w : World) (healthy : IsHealthy w) (sound : IsSound w.db) where
  abbrev time : ℕ
  time = w.clock w.tick

  abbrev live : SessionRow → Bool
  live = is_live token time

  abbrev slid : SessionRow → SessionRow
  slid s = record s { expires_at = time + session_ttl }

  abbrev after_slide : ℕ → Prog Error User
  after_slide n = if n =ℕ 0 then raise session_not_found else do
    row ← query session_not_found (session_user token)
    u ← or_missing session_not_found row
    ret (scan_user u)

  abbrev slid_world : World
  slid_world =
      elapse (elapse (record w { db = record w.db { sessions = update live slid w.db.sessions } }))

  lookup-slide :
      outcome (lookup token) w ≡ outcome (after_slide (count live w.db.sessions)) slid_world
  unfolding lookup slide_session
  lookup-slide =
      ap (λ (r : Result Error User × World). (r.0, r.1.db))
        (run-statement storage (elapse w) healthy after_slide (slide_session token time))

  missed :
      count live w.db.sessions ≡ 0
      → update live slid w.db.sessions ≡ w.db.sessions
      → outcome (after_slide (count live w.db.sessions)) slid_world ≡ (err session_not_found, w.db)
  missed none_hit unchanged = rw (none_hit, unchanged)

  lookup-missing :
      first (has_token token) w.db.sessions ≡ none
      → outcome (after_slide (count live w.db.sessions)) slid_world ≡ (err session_not_found, w.db)
  lookup-missing h = missed (count-first-none (has_token token) _ w.db.sessions h) (
      update-none (has_token token) _ slid w.db.sessions
        (count-not_found (has_token token) w.db.sessions h))

  module _ {s : SessionRow} (found : first (has_token token) w.db.sessions ≡ some s) where
    lookup-expired :
        ltb time s.expires_at ≡ false
        → outcome (after_slide (count live w.db.sessions)) slid_world
          ≡ (err session_not_found, w.db)
    lookup-expired late =
        missed
          (count-first-some (has_token token) (λ x. ltb time x.expires_at) w.db.sessions
              (sound.tokens token) found
            ∙ rw late)
          (update_unique (has_token token) (λ x. ltb time x.expires_at) slid w.db.sessions
              (sound.tokens token) found
            ∙ rw late)

    module _ (fresh : ltb time s.expires_at ≡ true) where
      slides : update live slid w.db.sessions ≡ update (has_token token) slid w.db.sessions
      slides =
          update_unique (has_token token) (λ x. ltb time x.expires_at) slid w.db.sessions
            (sound.tokens token) found
          ∙ (rw fresh
              (sym (update-found (has_token token) slid w.db.sessions (sound.tokens token) found)))

      hits : count live w.db.sessions ≡ 1
      hits =
          count-first-some (has_token token) (λ x. ltb time x.expires_at) w.db.sessions
            (sound.tokens token) found
          ∙ rw fresh

      abbrev extended : World
      extended = elapse (elapse (record w { db = extend token (time + session_ttl) w.db }))

      first-extended :
          first (has_token token) (update (has_token token) slid w.db.sessions) ≡ some (slid s)
      first-extended =
          first-update (has_token token) (has_token token) slid w.db.sessions (λ x _. refl)
          ∙ (rw (found, first-holds (has_token token) w.db.sessions found))

      session_user-extended :
          session_user token (extend token (time + session_ttl) w.db)
          ≡ first (is_user s.user_id) w.db.users
      session_user-extended = session_user-found token extended.db first-extended

      lookup-live :
          outcome (after_slide (count live w.db.sessions)) slid_world
          ≡ (user_of w.db s.user_id, extend token (time + session_ttl) w.db)
      unfolding or_missing
      lookup-live =
          rw (hits, slides)
            (rw (healthy (suc (suc w.tick)), run)
              (rw session_user-extended
                (elim (Option-cases (first (is_user s.user_id) w.db.users)) [
                  | inl missing ↦ rw missing
                  | inr (u, owner) ↦ rw owner
                ])))

      -- `lookup-live` with the whole world that is left
      pub run-lookup :
          {u : UserRow}
          → first (is_user s.user_id) w.db.users ≡ some u
          → run (lookup token) w ≡ (ok (scan_user u), elapse extended)
      unfolding lookup slide_session or_missing
      run-lookup owner =
          run-statement storage (elapse w) healthy after_slide (slide_session token time)
          ∙ (rw (hits, slides)
              (rw (healthy (suc (suc w.tick)), run) (rw (session_user-extended, owner) refl)))

  lookup_spec-some :
      {s : SessionRow}
      → first (has_token token) w.db.sessions ≡ some s
      → lookup_spec token time w.db ≡ looked_up token time w.db (some s)
  unfolding lookup_spec
  lookup_spec-some found = ap (looked_up token time w.db) found

  -- With no failing statement and no interruption, in sound accounts, `Lookup` is `lookup_spec`: a
  -- session that is there and has not expired gives its user and is good for another 12 hours; any
  -- other token is refused and changes nothing.
  pub lookup-lookup_spec : outcome (lookup token) w ≡ lookup_spec token time w.db
  unfolding lookup_spec
  lookup-lookup_spec = lookup-slide ∙ elim (Option-cases (first (has_token token) w.db.sessions)) [
    | inl missing ↦ lookup-missing missing ∙ sym (ap (looked_up token time w.db) missing)
    | inr (s, found) ↦ elim (Bool-cases (ltb time s.expires_at)) [
      | inl fresh ↦ lookup-live found fresh ∙ sym (lookup_spec-some found ∙ rw fresh)
      | inr late ↦ lookup-expired found late ∙ sym (lookup_spec-some found ∙ rw late)
    ]
  ]

  -- `Lookup` refuses a token without a live session
  pub lookup_refused :
      first (is_live token time) w.db.sessions ≡ none
      → outcome (lookup token) w ≡ (err session_not_found, w.db)
  unfolding lookup_spec
  lookup_refused dead = elim (Option-cases (first (has_token token) w.db.sessions)) [
    | inl missing ↦ lookup-lookup_spec ∙ ap (looked_up token time w.db) missing
    | inr (s, found) ↦
        lookup-lookup_spec
        ∙ lookup_spec-some found
        ∙ (rw (
            first-and-none (has_token token) (λ x. ltb time x.expires_at) w.db.sessions dead found))
  ]
