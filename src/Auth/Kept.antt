-- ===== src/Auth/Kept.antt =====
-- What an invariant of the database needs so that every method of auth.go keeps it: each SQL
-- statement of the package keeps it.
use starfighter_workflow.Common.{ℕ, ℤ, String, Bool, true, ◌≡◌}
use starfighter_workflow.Db.{Db, UserRow, SessionRow}
use starfighter_workflow.Auth.{
  valid_role, insert_user, update_user, delete_user, insert_session, slide_session, delete_sessions,
}

pub record IsKept (P : Db → Type 0) : Type 0 where
  pub insert_user-keeps :
      (username hash role display_name : String) (t : ℕ) (d : Db)
      → P d
      → P (insert_user username hash role display_name t d).1
  pub update_user-keeps :
      (id : ℤ) (f : UserRow → UserRow)
      → ((u : UserRow) → (f u).id ≡ u.id)
      → ((u : UserRow) → (f u).username ≡ u.username)
      → ((u : UserRow) → valid_role u.role ≡ true → valid_role (f u).role ≡ true)
      → (d : Db) → P d
      → P (update_user id f d).1
  pub delete_user-keeps : (id : ℤ) (d : Db) → P d → P (delete_user id d).1
  pub insert_session-keeps :
      (token : String) (id : ℤ) (t : ℕ) (d : Db) → P d → P (insert_session token id t d).1
  pub slide_session-keeps : (token : String) (t : ℕ) (d : Db) → P d → P (slide_session token t d).1
  pub delete_sessions-keeps : (p : SessionRow → Bool) (d : Db) → P d → P (delete_sessions p d).1
