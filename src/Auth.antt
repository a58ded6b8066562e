-- ===== src/Auth.antt =====
-- internal/auth/auth.go: accounts, passwords and sessions. Each method is a program of atomic SQL
-- statements.
mod Tables
pub mod Token
pub mod Accounts
pub mod Kept
pub mod Steps
pub mod Sound
pub mod Operations
pub mod Admins
pub mod Sessions
pub mod Races
pub mod Setups
pub mod Logins
pub mod Logouts
pub mod Passwords
pub mod Roles
pub mod Deletes
pub mod Enrols
pub mod Purges
unfoldable pub use Tables.*
use Prim.Native.String.{len}
use starfighter_workflow.Common.{
  ℕ, ◌*◌, ℤ, String, Bool, true, not, ◌&&◌, none, some, List, ◌==◌, map, ltb, leb, ◌=ℕ◌,
  if◌then◌else◌, trim_space,
}
use starfighter_workflow.Sql.Rows.{first, count}
use starfighter_workflow.Sql.Select.{order_by}
use starfighter_workflow.Sql.Collate.{nocase_before}
use starfighter_workflow.Db.{Db, UserRow, is_user}
use starfighter_workflow.Db.Exec.{
  Prog, ret, raise, ◌>>=◌, ◌>>◌, inspect, now, random_bytes, statement, query,
}
use starfighter_workflow.Auth.Token.{encode}

pub find_by_id : ℤ → Prog Error User
unfolding or_missing
find_by_id id = do
  row ← query storage (λ d. first (is_user id) d.users)
  u ← or_missing user_not_found row
  ret (scan_user u)

pub find_by_username : String → Prog Error User
unfolding or_missing
find_by_username username = do
  row ← query storage (λ d. first (has_name (trim_space username)) d.users)
  u ← or_missing user_not_found row
  ret (scan_user u)

unfoldable pub count_users : Prog Error ℕ
count_users = query storage (λ d. count (λ u. true) d.users)

pub count_admins : Prog Error ℕ
count_admins = query storage count_admins_of

-- ORDER BY username COLLATE NOCASE
pub select_users : Db → List User
select_users d = map scan_user (order_by (λ a b. nocase_before a.username b.username) d.users)

unfoldable pub list : Prog Error (List User)
list = query storage select_users

-- the bytes are those that the random source gives for the 32-byte buffer
pub new_session_token : Prog Error String
unfolding or_missing
new_session_token = do bytes ← random_bytes; raw ← or_missing storage bytes; ret (encode raw)

-- `CreateUser` with `ChangePassword` and `Login`, which need bcrypt
module _ (bcrypt : Bcrypt) where
  abbrev hash_password : String → Prog Error String
  hash_password password = do
    salt ← random_bytes
    or_missing storage (bcrypt.generate salt password)

  create_checked : String → String → String → String → Prog Error User
  unfolding or_missing
  create_checked username password role display_name = do
    hash ← hash_password password
    t ← now
    id ← statement storage (insert_user username hash role display_name t)
    ret (scan_user (new_user username hash role display_name t id))

  pub create_user : String → String → String → String → Prog Error User
  unfolding create_checked
  create_user username password role display_name =
      let name = trim_space username in
      if name == ""
      then raise username_required
      else if not (valid_role role)
      then raise bad_role
      else if ltb (len password) min_password_len
      then raise password_too_short
      else create_checked name password role (trim_space display_name)

  pub change_password : ℤ → String → Prog Error Unit
  unfolding or_missing
  change_password id password =
      if ltb (len password) min_password_len then raise password_too_short else do
        find_by_id id
        hash ← hash_password password
        statement storage (update_user id (λ u. record u { password_hash = hash }))
        ret tt

  -- `Login` once the password is right; a failure to stamp `last_login_at` is ignored
  issue_session : UserRow → Prog Error (String × User)
  unfolding new_session_token
  issue_session u = do
    token ← new_session_token
    t ← now
    statement storage (insert_session token u.id t)
    inspect (statement storage (update_user u.id (λ v. record v { last_login_at = some t })))
        (λ r. ret (token, scan_user (record u { last_login_at = none })))

  -- every failure of the read is an invalid login
  pub login : String → String → Prog Error (String × User)
  unfolding or_missing issue_session
  login username password = do
    row ← query invalid_login (λ d. first (has_name (trim_space username)) d.users)
    u ← or_missing invalid_login row
    if bcrypt.compare u.password_hash password then issue_session u else raise invalid_login

-- the guard of `Delete` and `ChangeRole`: another admin is left
pub keep_an_admin : Bool → Prog Error Unit
keep_an_admin demoted =
    if demoted then (do n ← count_admins; if leb n 1 then raise last_admin else ret tt) else ret tt

pub delete_by_id : ℤ → Prog Error Unit
unfolding keep_an_admin
delete_by_id id = do
  u ← find_by_id id
  keep_an_admin (u.role == role_admin)
  n ← statement storage (delete_user id)
  if n =ℕ 0 then raise user_not_found else ret tt

pub change_role : ℤ → String → Prog Error Unit
unfolding keep_an_admin
change_role id role = if not (valid_role role) then raise bad_role else do
  u ← find_by_id id
  keep_an_admin (u.role == role_admin && not (role == role_admin))
  statement storage (update_user id (λ v. record v { role = role }))
  ret tt

unfoldable pub lookup : String → Prog Error User
unfolding or_missing
lookup token = do
  t ← now
  n ← statement storage (slide_session token t)
  if n =ℕ 0 then raise session_not_found else do
    row ← query session_not_found (session_user token)
    u ← or_missing session_not_found row
    ret (scan_user u)

unfoldable pub wipe_all_sessions : Prog Error ℕ
wipe_all_sessions = statement storage (delete_sessions (λ s. true))

pub logout : String → Prog Error Unit
logout token = do statement storage (delete_sessions (has_token token)); ret tt

pub purge_expired : Prog Error Unit
purge_expired = do t ← now; statement storage (delete_sessions (λ s. leb s.expires_at t)); ret tt
