-- ===== src/Auth/Enrols.antt =====
-- `CreateUser` of auth.go.
use Prim.Native.String.{len}
use starfighter_workflow.Common.{
  ℕ, suc, pos, ℤ, Bool, ◌||◌, String, true, false, not, Option, none, some, [], ◌∷◌, ◌++◌, ◌≡◌,
  refl, ◌==◌, ltb, is_some, if◌then◌else◌, trim_space, Result, ok, err, Bool-cases, inl, inr,
}
use starfighter_workflow.Sql.Rows.{first}
use starfighter_workflow.Db.{Db, UserRow}
use starfighter_workflow.Db.Exec.{
  Prog, ret, ◌>>=◌, now, statement, World, run, outcome, elapse, IsHealthy, commit_if,
}
use starfighter_workflow.Auth.{
  Error, storage, user_exists, username_required, bad_role, password_too_short, User, Bcrypt,
  scan_user, has_name, new_user, valid_role, or_missing, insert_user, create_checked, create_user,
}

-- an account that nobody has logged in to, and what clients see of one
abbrev account : (name hash role display_name : String) → ℕ → ℤ → UserRow
account name hash role display_name t id = record {
  id = id;
  username = name;
  password_hash = hash;
  role = role;
  display_name = display_name;
  created_at = t;
  last_login_at = none;
}

abbrev client_view : UserRow → User
client_view u = record {
  id = u.id;
  username = u.username;
  role = u.role;
  display_name = u.display_name;
  created_at = u.created_at;
  last_login_at = u.last_login_at;
}

abbrev pub is_role : String → Bool
is_role role = role == "admin" || role == "user"

-- the account that is added, with the next id
abbrev pub enrolled : (name hash role display_name : String) → ℕ → Db → Result Error User × Db
enrolled name hash role display_name t d =
    let row = account name hash role display_name t (pos (suc d.user_seq)) in
    (ok (client_view row), record d { user_seq = suc d.user_seq; users = d.users ++ row ∷ [] })

-- one account for a name, whatever the case of its ASCII letters
abbrev pub enrol_hashed :
    (name role display_name : String) → ℕ → Option String → Db → Result Error User × Db
enrol_hashed name role display_name t none d = (err storage, d)
enrol_hashed name role display_name t (some hash) d =
    if is_some (first (has_name name) d.users)
    then (err user_exists, d)
    else enrolled name hash role display_name t d

-- `hash` is what bcrypt made of the password
abbrev pub enrol_spec :
    (username password role display_name : String) → ℕ → Option String → Db → Result Error User × Db
enrol_spec username password role display_name t hash d =
    let name = trim_space username in
    if name == ""
    then (err username_required, d)
    else if not (is_role role)
    then (err bad_role, d)
    else if ltb (len password) 8
    then (err password_too_short, d)
    else enrol_hashed name role (trim_space display_name) t hash d

module _ (bcrypt : Bcrypt) (w : World) (healthy : IsHealthy w) where
  module _ (name role display_name : String) (valid : is_role role ≡ true) where
    abbrev rest : String → Prog Error User
    rest hash = do
      t ← now
      id ← statement storage (insert_user name hash role display_name t)
      ret (scan_user (new_user name hash role display_name t id))

    -- `hash_password` has made a step
    rest-hashed :
        (o : Option String)
        → outcome (or_missing storage o >>= rest) (elapse w)
          ≡ enrol_hashed name role display_name (w.clock (suc w.tick)) o w.db
    unfolding or_missing insert_user commit_if valid_role
    rest-hashed none = refl
    rest-hashed (some hash) = elim (Bool-cases (is_some (first (has_name name) w.db.users))) [
      | inl taken ↦ rw (healthy (suc (suc w.tick)), run) (rw (valid, taken) refl)
      | inr free ↦ rw (healthy (suc (suc w.tick)), run) (rw (valid, free) refl)
    ]

    create_checked-hashed :
        (password : String)
        → outcome (create_checked bcrypt name password role display_name) w
          ≡ enrol_hashed name role display_name
              (w.clock (suc w.tick))
              (bcrypt.generate (w.random w.tick) password)
              w.db
    unfolding create_checked
    create_checked-hashed password = rest-hashed (bcrypt.generate (w.random w.tick) password)

  -- With no failing statement and no interruption, `CreateUser` refuses a blank username, a role that
  -- is neither admin nor user, a password of fewer than 8 bytes, one that bcrypt does not hash, and a
  -- name that another account has up to the case of ASCII letters, each without a change; otherwise
  -- it adds one account with the trimmed names, the hash, the role, the time and the next id, and
  -- returns what clients see of it.
  pub create_user-enrol_spec :
      (username password role display_name : String)
      → outcome (create_user bcrypt username password role display_name) w
        ≡ enrol_spec username password role display_name
            (w.clock (suc w.tick))
            (bcrypt.generate (w.random w.tick) password)
            w.db
  unfolding create_user valid_role
  create_user-enrol_spec username password role display_name =
      elim (Bool-cases (trim_space username == "")) [
        | inl blank ↦ rw blank refl
        | inr named ↦ rw named (elim (Bool-cases (is_role role)) [
          | inr unknown ↦ rw unknown refl
          | inl valid ↦ rw valid (elim (Bool-cases (ltb (len password) 8)) [
            | inl short ↦ rw short refl
            | inr long ↦ rw long (
                create_checked-hashed (trim_space username) role (trim_space display_name) valid
                  password)
          ])
        ])
      ]

-- the whole world that a `CreateUser` leaves when it adds an account
pub run-create_user :
    (bcrypt : Bcrypt) (w : World) (username password role display_name : String) {hash : String}
    → IsHealthy w
    → (trim_space username == "") ≡ false
    → valid_role role ≡ true
    → ltb (len password) 8 ≡ false
    → bcrypt.generate (w.random w.tick) password ≡ some hash
    → is_some (first (has_name (trim_space username)) w.db.users) ≡ false
    → let made =
        enrolled
          (trim_space username)
          hash
          role
          (trim_space display_name)
          (w.clock (suc w.tick))
          w.db in
      run (create_user bcrypt username password role display_name) w
      ≡ (made.0, record w { db = made.1; tick = suc (suc (suc w.tick)) })
unfolding create_user create_checked or_missing insert_user commit_if
run-create_user bcrypt w username password role display_name healthy named valid long hashed free =
    rw (named, valid, long) (rw (hashed, run) (rw (healthy (suc (suc w.tick)), run) (rw free refl)))
