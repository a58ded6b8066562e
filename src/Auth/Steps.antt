-- ===== src/Auth/Steps.antt =====
-- How many statements a call of auth.go makes.
use starfighter_workflow.Common.{ℕ, suc, ℤ, String, Bool, Option, none, some}
use starfighter_workflow.Db.{UserRow}
use starfighter_workflow.Db.Takes.{
  Takes, returns, raises, steps, Takes-bind_0, Takes-bind_1, takes_rules,
}
use starfighter_workflow.Auth.Token.{encode}
use starfighter_workflow.Auth.{
  Error, storage, Bcrypt, or_missing, find_by_id, find_by_username, count_users, count_admins, list,
  hash_password, create_checked, create_user, change_password, issue_session, login, keep_an_admin,
  new_session_token, delete_by_id, change_role, lookup, wipe_all_sessions, logout, purge_expired,
}

or_missing-Takes : {n : ℕ} {A : Type 0} (e : Error) (o : Option A) → Takes n (or_missing e o)
unfolding or_missing
or_missing-Takes e none = raises e
or_missing-Takes e (some a) = returns a

ruleset account_rules = (takes_rules, or_missing-Takes)

pub find_by_id-Takes : {n : ℕ} (id : ℤ) → Takes (suc n) (find_by_id id)
unfolding find_by_id
find_by_id-Takes id = search account_rules

pub find_by_username-Takes : {n : ℕ} (name : String) → Takes (suc n) (find_by_username name)
unfolding find_by_username
find_by_username-Takes name = search account_rules

pub count_users-Takes : {n : ℕ} → Takes (suc n) count_users
unfolding count_users
count_users-Takes = search account_rules

count_admins-Takes : {n : ℕ} → Takes (suc n) count_admins
unfolding count_admins
count_admins-Takes = search account_rules

pub list-Takes : {n : ℕ} → Takes (suc n) list
unfolding list
list-Takes = search account_rules

keep_an_admin-Takes : {n : ℕ} (demoted : Bool) → Takes (suc n) (keep_an_admin demoted)
unfolding keep_an_admin
keep_an_admin-Takes demoted = search (account_rules, count_admins-Takes) depth 9

pub delete_by_id-Takes : {n : ℕ} (id : ℤ) → Takes (suc (suc (suc n))) (delete_by_id id)
unfolding delete_by_id
delete_by_id-Takes id = search (account_rules, find_by_id-Takes, keep_an_admin-Takes) depth 9

pub change_role-Takes :
    {n : ℕ} (id : ℤ) (role : String) → Takes (suc (suc (suc n))) (change_role id role)
unfolding change_role
change_role-Takes id role = search (account_rules, find_by_id-Takes, keep_an_admin-Takes) depth 9

pub lookup-Takes : {n : ℕ} (token : String) → Takes (suc (suc (suc n))) (lookup token)
unfolding lookup
lookup-Takes token = search account_rules depth 9

pub logout-Takes : {n : ℕ} (token : String) → Takes (suc n) (logout token)
unfolding logout
logout-Takes token = search account_rules

pub wipe_all_sessions-Takes : {n : ℕ} → Takes (suc n) wipe_all_sessions
unfolding wipe_all_sessions
wipe_all_sessions-Takes = search account_rules

pub purge_expired-Takes : {n : ℕ} → Takes (suc (suc n)) purge_expired
unfolding purge_expired
purge_expired-Takes = search account_rules

hash_password-Takes :
    {n : ℕ} (bcrypt : Bcrypt) (password : String) → Takes (suc n) (hash_password bcrypt password)
hash_password-Takes bcrypt password = search account_rules depth 9

create_checked-Takes :
    {n : ℕ} (bcrypt : Bcrypt) (username password role display_name : String)
    → Takes (suc (suc (suc n))) (create_checked bcrypt username password role display_name)
unfolding create_checked
create_checked-Takes bcrypt username password role display_name =
    search (account_rules, hash_password-Takes) depth 9

pub create_user-Takes :
    {n : ℕ} (bcrypt : Bcrypt) (username password role display_name : String)
    → Takes (suc (suc (suc n))) (create_user bcrypt username password role display_name)
unfolding create_user
create_user-Takes bcrypt username password role display_name =
    search (account_rules, create_checked-Takes) depth 9

pub change_password-Takes :
    {n : ℕ} (bcrypt : Bcrypt) (id : ℤ) (password : String)
    → Takes (suc (suc (suc n))) (change_password bcrypt id password)
unfolding change_password
change_password-Takes bcrypt id password =
    search (account_rules, find_by_id-Takes, hash_password-Takes) depth 9

new_session_token-Takes : {n : ℕ} → Takes (suc n) new_session_token
unfolding new_session_token
new_session_token-Takes =
    steps
      (λ w. Takes-bind_0 (λ raw. returns (encode raw)) (or_missing-Takes storage (w.random w.tick)))

issue_session-Takes :
    {n : ℕ} (bcrypt : Bcrypt) (u : UserRow)
    → Takes (suc (suc (suc (suc n)))) (issue_session bcrypt u)
unfolding issue_session
issue_session-Takes bcrypt u =
    Takes-bind_1 (λ token. search account_rules depth 9) new_session_token-Takes

pub login-Takes :
    {n : ℕ} (bcrypt : Bcrypt) (username password : String)
    → Takes (suc (suc (suc (suc (suc n))))) (login bcrypt username password)
unfolding login
login-Takes bcrypt username password = search (account_rules, issue_session-Takes) depth 12
