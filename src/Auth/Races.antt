-- ===== src/Auth/Races.antt =====
-- A schedule of two calls of `Delete`, which counts the admins in one statement and deletes in
-- another.
use mathlib.Core.List.{map}
use starfighter_workflow.Common.{pos, ◌=ℤ◌, [], ◌∷◌, ◌≡◌, refl}
use starfighter_workflow.Sql.Rows.{first, count, update, where_rows, delete}
use starfighter_workflow.Db.Threads.{interleave}
use starfighter_workflow.Auth.{
  or_missing, find_by_id, count_admins_of, count_admins, keep_an_admin, delete_user, delete_by_id,
}
use starfighter_workflow.Tests.Shop.{day}

-- two admins, each of whom deletes the other: both count two admins before either is gone
admins-gone :
    count_admins_of
      (interleave (0 ∷ 0 ∷ 1 ∷ 1 ∷ 0 ∷ 1 ∷ []) (map delete_by_id (pos 1 ∷ pos 2 ∷ [])) day).1.db
    ≡ 0
unfolding ◌=ℤ◌ first count update where_rows delete interleave or_missing find_by_id count_admins_of
    count_admins keep_an_admin delete_user delete_by_id
admins-gone = refl
