-- ===== src/Auth/Passwords.antt =====
-- `ChangePassword` of auth.go, and the `Login` after it.
use Prim.Native.String.{len}
use starfighter_workflow.Common.{
  ℕ, suc, ℤ, =ℤ_refl, String, true, false, Option, none, some, List, ◌≡◌, refl, ap, ◌∙◌, ltb,
  Result, ok, err, if◌then◌else◌, Bool-cases, Option-cases, inl, inr, trim_space,
}
use starfighter_workflow.Sql.Rows.{first, update, first_unique, first-update}
use starfighter_workflow.Db.{Db, UserRow, is_user}
use starfighter_workflow.Db.Exec.{
  World, run, outcome, elapse, IsHealthy, ret, statement, ◌>>=◌, ◌>>◌,
}
use starfighter_workflow.Db.Keeps.{Keeps-run}
use starfighter_workflow.Auth.{
  Error, password_too_short, user_not_found, storage, scan_user, Bcrypt, or_missing, has_name,
  has_token, update_user, change_password, login,
}
use starfighter_workflow.Auth.Token.{encode}
use starfighter_workflow.Auth.Accounts.{IsSound}
use starfighter_workflow.Auth.Sound.{IsSound-IsKept}
use starfighter_workflow.Auth.Operations.{change_password-Keeps}
use starfighter_workflow.Auth.Deletes.{find_then-none, find_then-some}
use starfighter_workflow.Auth.Logins.{login-right}

abbrev with_hash : String → UserRow → UserRow
with_hash hash u = record u { password_hash = hash }

abbrev rehashed : ℤ → Db → Option String → Result Error Unit × Db
rehashed id d none = (err storage, d)
rehashed id d (some hash) =
    (ok tt, record d { users = update (is_user id) (with_hash hash) d.users })

abbrev change_of : ℤ → Option String → Db → Option UserRow → Result Error Unit × Db
change_of id hash d none = (err user_not_found, d)
change_of id hash d (some u) = rehashed id d hash

-- What `ChangePassword` promises, given what bcrypt makes of the password.
abbrev pub change_spec : ℤ → String → Option String → Db → Result Error Unit × Db
change_spec id password hash d =
    if ltb (len password) 8
    then (err password_too_short, d)
    else change_of id hash d (first (is_user id) d.users)

-- what bcrypt makes of the password, with the random bytes of the step after the SELECT
abbrev pub hashed : Bcrypt → String → World → Option String
hashed bcrypt password w = bcrypt.generate (w.random (suc w.tick)) password

stored :
    (id : ℤ) (hash : Option String) (v : World)
    → IsHealthy v
    → outcome
        (or_missing storage hash >>= λ h.
          statement storage (update_user id (with_hash h)) >> ret tt)
        v
      ≡ rehashed id v.db hash
unfolding or_missing update_user
stored id none v healthy = refl
stored id (some h) v healthy = rw (healthy v.tick, run) refl

module _ (bcrypt : Bcrypt) (id : ℤ) (password : String) (w : World) (healthy : IsHealthy w) where
  -- With no failing statement and no interruption, `ChangePassword` refuses a password of fewer
  -- than 8 bytes, an unknown user and a password that bcrypt does not hash, each without a change,
  -- and otherwise stores the hash for the user and changes nothing else.
  pub change_password-change_spec :
      outcome (change_password bcrypt id password) w
      ≡ change_spec id password (hashed bcrypt password w) w.db
  unfolding change_password or_missing update_user
  change_password-change_spec = elim (Bool-cases (ltb (len password) 8)) [
    | inl short ↦ rw short refl
    | inr long ↦ rw long (elim (Option-cases (first (is_user id) w.db.users)) [
      | inl missing ↦ rw (find_then-none id w healthy _ missing) (rw missing refl)
      | inr (u, found) ↦
          rw (find_then-some id w healthy _ found)
            (rw found (stored id (hashed bcrypt password w) (elapse (elapse w)) healthy))
    ])
  ]

module _ (bcrypt : Bcrypt)
    (compare-generate : (salt : Option (List ℕ)) (password hash : String)
      → bcrypt.generate salt password ≡ some hash
      → bcrypt.compare hash password ≡ true)
    (name password : String) (w next : World) (healthy : IsHealthy w)
    (next_healthy : IsHealthy next) (sound : IsSound w.db) {u : UserRow}
    (found : first (has_name (trim_space name)) w.db.users ≡ some u)
    (long : ltb (len password) 8 ≡ false) {hash : String}
    (made : hashed bcrypt password w ≡ some hash)
    (same : next.db ≡ (outcome (change_password bcrypt u.id password) w).1) where
  abbrev after : Db
  after = record w.db { users = update (is_user u.id) (with_hash hash) w.db.users }

  changed : outcome (change_password bcrypt u.id password) w ≡ (ok tt, after)
  changed =
      change_password-change_spec bcrypt u.id password w healthy
      ∙ (rw long (
          rw
            (first_unique (is_user u.id) (has_name (trim_space name)) w.db.users
              (sound.keys.unique u.id) found (=ℤ_refl u.id))
            (ap (rehashed u.id w.db) made)))

  left : next.db ≡ after
  left = same ∙ ap (λ o. o.1) changed

  renamed : first (has_name (trim_space name)) next.db.users ≡ some (with_hash hash u)
  renamed =
      ap (λ d. first (has_name (trim_space name)) d.users) left
      ∙ first-update (has_name (trim_space name)) (is_user u.id) (with_hash hash) w.db.users
          (λ v h. refl)
      ∙ (rw (found, =ℤ_refl u.id) refl)

  -- With no failing statement and no interruption, in sound accounts, given that bcrypt matches a
  -- password with every hash that it made of it: for a user and a password of at least 8 bytes that
  -- bcrypt hashes, `ChangePassword` succeeds, and on the database that it left, a `Login` with the
  -- user's name and the new password gives a token and the user, if the random source gives bytes
  -- whose token no session has.
  pub change_password-login :
      {raw : List ℕ}
      → next.random (suc next.tick) ≡ some raw
      → first (has_token (encode raw)) w.db.sessions ≡ none
      → ((outcome (change_password bcrypt u.id password) w).0 ≡ ok tt)
        × ((outcome (login bcrypt name password) next).0
            ≡ ok (encode raw, scan_user (record u { last_login_at = none })))
  change_password-login {raw} drawn fresh = (
    ap (λ o. o.0) changed,
    ap (λ o. o.0)
        (login-right bcrypt name password next next_healthy next_sound renamed
          (compare-generate _ password hash made) drawn
          (ap (λ d. first (has_token (encode raw)) d.sessions) left ∙ fresh)),
  )
    where
      next_sound : IsSound next.db
      next_sound =
          rw same
            (Keeps-run (change_password-Keeps IsSound IsSound-IsKept bcrypt u.id password) w sound)
