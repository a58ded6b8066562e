-- ===== src/Auth/Operations.antt =====
-- The methods of auth.go, step by step, under an invariant of the database.
use starfighter_workflow.Common.{ℕ, ℤ, String, Bool, true, Option, none, some, ◌≡◌, not-false}
use starfighter_workflow.Db.{Db, UserRow, SessionRow}
use starfighter_workflow.Db.Exec.{statement}
use starfighter_workflow.Db.Keeps.{Keeps, raises, returns, Keeps-statement, keeps_rules}
use starfighter_workflow.Auth.{
  Error, Bcrypt, valid_role, insert_user, update_user, delete_user, insert_session, slide_session,
  delete_sessions, or_missing, find_by_id, find_by_username, count_users, count_admins, list,
  create_user, change_password, issue_session, login, keep_an_admin, delete_by_id, change_role,
  lookup, wipe_all_sessions, logout, purge_expired,
}
use starfighter_workflow.Auth.Kept.{IsKept}

module _ (P : Db → Type 0) (kept : IsKept P) where
  module _ (bad : Error) where
    insert_user-Keeps :
        (username hash role display_name : String) (t : ℕ)
        → Keeps P (statement bad (insert_user username hash role display_name t))
    insert_user-Keeps username hash role display_name t =
        Keeps-statement bad _ (kept.insert_user-keeps username hash role display_name t)

    update_user-Keeps :
        (id : ℤ) (f : UserRow → UserRow)
        → ((u : UserRow) → (f u).id ≡ u.id)
        → ((u : UserRow) → (f u).username ≡ u.username)
        → ((u : UserRow) → valid_role u.role ≡ true → valid_role (f u).role ≡ true)
        → Keeps P (statement bad (update_user id f))
    update_user-Keeps id f same name role =
        Keeps-statement bad _ (kept.update_user-keeps id f same name role)

    delete_user-Keeps : (id : ℤ) → Keeps P (statement bad (delete_user id))
    delete_user-Keeps id = Keeps-statement bad _ (kept.delete_user-keeps id)

    insert_session-Keeps :
        (token : String) (id : ℤ) (t : ℕ) → Keeps P (statement bad (insert_session token id t))
    insert_session-Keeps token id t = Keeps-statement bad _ (kept.insert_session-keeps token id t)

    slide_session-Keeps : (token : String) (t : ℕ) → Keeps P (statement bad (slide_session token t))
    slide_session-Keeps token t = Keeps-statement bad _ (kept.slide_session-keeps token t)

    delete_sessions-Keeps : (p : SessionRow → Bool) → Keeps P (statement bad (delete_sessions p))
    delete_sessions-Keeps p = Keeps-statement bad _ (kept.delete_sessions-keeps p)

  or_missing-Keeps : {A : Type 0} (e : Error) (o : Option A) → Keeps P (or_missing e o)
  unfolding or_missing
  or_missing-Keeps e none = raises e
  or_missing-Keeps e (some a) = returns a

  ruleset account_rules = (
    keeps_rules, or_missing-Keeps, insert_user-Keeps, update_user-Keeps, delete_user-Keeps,
    insert_session-Keeps, slide_session-Keeps, delete_sessions-Keeps,
  )

  pub find_by_id-Keeps : (id : ℤ) → Keeps P (find_by_id id)
  unfolding find_by_id
  find_by_id-Keeps id = search account_rules

  pub find_by_username-Keeps : (username : String) → Keeps P (find_by_username username)
  unfolding find_by_username
  find_by_username-Keeps username = search account_rules

  pub count_users-Keeps : Keeps P count_users
  unfolding count_users
  count_users-Keeps = search account_rules

  count_admins-Keeps : Keeps P count_admins
  unfolding count_admins
  count_admins-Keeps = search account_rules

  pub list-Keeps : Keeps P list
  unfolding list
  list-Keeps = search account_rules

  keep_an_admin-Keeps : (demoted : Bool) → Keeps P (keep_an_admin demoted)
  unfolding keep_an_admin
  keep_an_admin-Keeps demoted = search (account_rules, count_admins-Keeps) depth 9

  pub delete_by_id-Keeps : (id : ℤ) → Keeps P (delete_by_id id)
  unfolding delete_by_id
  delete_by_id-Keeps id = search (account_rules, find_by_id-Keeps, keep_an_admin-Keeps) depth 9

  pub change_role-Keeps : (id : ℤ) (role : String) → Keeps P (change_role id role)
  unfolding change_role
  change_role-Keeps id role =
      search (account_rules, not-false, find_by_id-Keeps, keep_an_admin-Keeps) depth 9

  pub lookup-Keeps : (token : String) → Keeps P (lookup token)
  unfolding lookup
  lookup-Keeps token = search account_rules depth 9

  pub logout-Keeps : (token : String) → Keeps P (logout token)
  unfolding logout
  logout-Keeps token = search account_rules

  pub wipe_all_sessions-Keeps : Keeps P wipe_all_sessions
  unfolding wipe_all_sessions
  wipe_all_sessions-Keeps = search account_rules

  pub purge_expired-Keeps : Keeps P purge_expired
  unfolding purge_expired
  purge_expired-Keeps = search account_rules

  module _ (bcrypt : Bcrypt) where
    pub create_user-Keeps :
        (username password role display_name : String)
        → Keeps P (create_user bcrypt username password role display_name)
    unfolding create_user
    create_user-Keeps username password role display_name = search account_rules depth 12

    pub change_password-Keeps :
        (id : ℤ) (password : String) → Keeps P (change_password bcrypt id password)
    unfolding change_password
    change_password-Keeps id password = search (account_rules, find_by_id-Keeps) depth 12

    issue_session-Keeps : (u : UserRow) → Keeps P (issue_session bcrypt u)
    unfolding issue_session
    issue_session-Keeps u = search account_rules depth 12

    pub login-Keeps : (username password : String) → Keeps P (login bcrypt username password)
    unfolding login
    login-Keeps username password = search (account_rules, issue_session-Keeps) depth 12
