-- ===== src/Auth/Tables.antt =====
-- auth.go: its types, and its SQL statements on users and sessions.
use starfighter_workflow.Common.{
  ℕ, suc, ◌+◌, ◌*◌, ℤ, pos, ◌=ℤ◌, String, Bool, true, not, ◌&&◌, ◌||◌, Option, none, some, List, [],
  ◌∷◌, ◌++◌, ◌==◌, ltb, if◌then◌else◌, is_some, Result, ok,
}
use starfighter_workflow.Sql.Rows.{first, count, update, delete}
use starfighter_workflow.Sql.Collate.{nocase_eq}
use starfighter_workflow.Db.{Db, UserRow, SessionRow, MachineRow, RequestRow, is_user, is_known}
use starfighter_workflow.Db.Exec.{Prog, ret, raise, commit_if}

abbrev pub role_admin : String
role_admin = "admin"

abbrev pub role_user : String
role_user = "user"

-- in seconds
abbrev pub session_ttl : ℕ
session_ttl = 12 * 3600

abbrev pub min_password_len : ℕ
min_password_len = 8

-- The package's errors; `storage` is any other error, a failed call wrapped by the method.
pub data Error : Type 0 where
  user_exists invalid_login session_not_found user_not_found last_admin bad_role : Error
  password_too_short username_required storage : Error

unfoldable pub valid_role : String → Bool
valid_role role = role == role_admin || role == role_user

-- golang.org/x/crypto/bcrypt: `generate` hashes a password with what the random source gave and
-- may fail, `compare` tests a password against a hash.
pub record Bcrypt : Type 0 where
  pub generate : Option (List ℕ) → String → Option String
  pub compare : String → String → Bool

-- `User`
pub record User : Type 0 where
  pub id : ℤ
  pub username : String
  pub role : String
  pub display_name : String
  pub created_at : ℕ
  pub last_login_at : Option ℕ

-- `scanUser`
abbrev pub scan_user : UserRow → User
scan_user u = record {
  id = u.id;
  username = u.username;
  role = u.role;
  display_name = u.display_name;
  created_at = u.created_at;
  last_login_at = u.last_login_at;
}

abbrev pub has_name : String → UserRow → Bool
has_name name u = nocase_eq u.username name

-- a row, or `sql.ErrNoRows` as `missing`
unfoldable pub or_missing : {A : Type 0} → Error → Option A → Prog Error A
or_missing missing none = raise missing
or_missing missing (some a) = ret a

abbrev pub new_user : String → String → String → String → ℕ → ℤ → UserRow
new_user username hash role display_name t id = record {
  id = id;
  username = username;
  password_hash = hash;
  role = role;
  display_name = display_name;
  created_at = t;
  last_login_at = none;
}

-- The INSERT of `CreateUser`: UNIQUE COLLATE NOCASE on the username, CHECK on the role.
unfoldable pub insert_user : String → String → String → String → ℕ → Db → Result Error ℤ × Db
insert_user username hash role display_name t d =
    let id = pos (suc d.user_seq) in
    commit_if (valid_role role && not (is_some (first (has_name username) d.users)))
      (if is_some (first (has_name username) d.users) then user_exists else storage) id
      (record d {
        user_seq = suc d.user_seq;
        users = d.users ++ new_user username hash role display_name t id ∷ [];
      })
      d

-- DELETE FROM users WHERE id = ?, with ON DELETE CASCADE and ON DELETE SET NULL. By the foreign
-- keys no row names a user who does not exist.
abbrev pub forget : ℤ → Option ℤ → Option ℤ
forget id none = none
forget id (some u) = if u =ℤ id then none else some u

abbrev pub forget_machine : ℤ → MachineRow → MachineRow
forget_machine id m = record m { created_by = forget id m.created_by }

abbrev pub forget_request : ℤ → RequestRow → RequestRow
forget_request id r = record r {
  assigned_to = forget id r.assigned_to;
  created_by = forget id r.created_by;
}

unfoldable pub delete_user : ℤ → Db → Result Error ℕ × Db
delete_user id d = (
  ok (count (is_user id) d.users),
  record d {
    users = delete (is_user id) d.users;
    sessions = delete (λ s. s.user_id =ℤ id) d.sessions;
    machines = update (λ m. true) (forget_machine id) d.machines;
    requests = update (λ r. true) (forget_request id) d.requests;
  },
)

-- UPDATE users SET f WHERE id = ?
unfoldable pub update_user : ℤ → (UserRow → UserRow) → Db → Result Error ℕ × Db
update_user id f d =
    (ok (count (is_user id) d.users), record d { users = update (is_user id) f d.users })

abbrev pub has_token : String → SessionRow → Bool
has_token token s = s.token == token

abbrev pub new_session : String → ℤ → ℕ → SessionRow
new_session token user_id t = record {
  token = token;
  user_id = user_id;
  created_at = t;
  expires_at = t + session_ttl;
}

-- The INSERT of `Login`: the token is the key, the user must exist.
unfoldable pub insert_session : String → ℤ → ℕ → Db → Result Error Unit × Db
insert_session token user_id t d =
    commit_if (not (is_some (first (has_token token) d.sessions)) && is_known d (some user_id))
      storage tt (record d { sessions = d.sessions ++ new_session token user_id t ∷ [] }) d

-- UPDATE sessions SET expires_at = t + TTL WHERE token = ? AND expires_at > t
abbrev pub is_live : String → ℕ → SessionRow → Bool
is_live token t s = has_token token s && ltb t s.expires_at

unfoldable pub slide_session : String → ℕ → Db → Result Error ℕ × Db
slide_session token t d = (
  ok (count (is_live token t) d.sessions),
  record d {
    sessions = update (is_live token t) (λ s. record s { expires_at = t + session_ttl }) d.sessions;
  },
)

-- DELETE FROM sessions WHERE p
unfoldable pub delete_sessions : (SessionRow → Bool) → Db → Result Error ℕ × Db
delete_sessions p d = (ok (count p d.sessions), record d { sessions = delete p d.sessions })

-- sessions s JOIN users u ON u.id = s.user_id WHERE s.token = ?
unfoldable pub session_user : String → Db → Option UserRow
session_user token d = elim (first (has_token token) d.sessions) [
  | none ↦ none
  | some s ↦ first (is_user s.user_id) d.users
]

unfoldable pub count_admins_of : Db → ℕ
count_admins_of d = count (λ u. u.role == role_admin) d.users
