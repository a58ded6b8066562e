-- ===== src/Auth/Roles.antt =====
-- `ChangeRole` of auth.go.
use starfighter_workflow.Common.{
  suc, ℤ, String, Bool, not, ◌&&◌, Option, none, some, ◌≡◌, refl, ◌∙◌, ◌==◌, leb, Result, ok, err,
  if◌then◌else◌, Bool-cases, Option-cases, inl, inr,
}
use starfighter_workflow.Sql.Rows.{first, update}
use starfighter_workflow.Db.{Db, UserRow, is_user}
use starfighter_workflow.Db.Exec.{
  World, Prog, ret, ◌>>=◌, ◌>>◌, run, outcome, elapse, IsHealthy, statement,
}
use starfighter_workflow.Auth.{
  Error, bad_role, user_not_found, last_admin, storage, valid_role, count_admins, count_admins_of,
  keep_an_admin, update_user, change_role,
}
use starfighter_workflow.Auth.Enrols.{is_role}
use starfighter_workflow.Auth.Admins.{admins_in}
use starfighter_workflow.Auth.Deletes.{find_then-none, find_then-some}

abbrev with_role : String → UserRow → UserRow
with_role role u = record u { role = role }

-- whether the change takes the role of an admin away
abbrev demotes : String → UserRow → Bool
demotes role u = u.role == "admin" && not (role == "admin")

abbrev given_role : ℤ → String → Db → Option UserRow → Result Error Unit × Db
given_role id role d none = (err user_not_found, d)
given_role id role d (some u) =
    if demotes role u && leb (admins_in d) 1
    then (err last_admin, d)
    else (ok tt, record d { users = update (is_user id) (with_role role) d.users })

-- What `ChangeRole` promises.
abbrev pub role_spec : ℤ → String → Db → Result Error Unit × Db
role_spec id role d =
    if not (valid_role role)
    then (err bad_role, d)
    else given_role id role d (first (is_user id) d.users)

module _ (id : ℤ) (role : String) (w : World) (healthy : IsHealthy w) where
  abbrev rewrite : Prog Error Unit
  rewrite = statement storage (update_user id (with_role role)) >> ret tt

  rewritten :
      (v : World)
      → IsHealthy v
      → outcome rewrite v
        ≡ (ok tt, record v.db { users = update (is_user id) (with_role role) v.db.users })
  unfolding update_user
  rewritten v ok_v = rw (ok_v v.tick, run) refl

  guarded :
      (u : UserRow)
      → first (is_user id) w.db.users ≡ some u
      → outcome (keep_an_admin (demotes role u) >>= λ _. rewrite) (elapse w)
        ≡ given_role id role w.db (some u)
  unfolding keep_an_admin count_admins count_admins_of
  guarded u found = elim (Bool-cases (demotes role u)) [
    | inr spared ↦ rw spared (rewritten (elapse w) healthy)
    | inl demoted ↦ rw demoted (elim (Bool-cases (leb (admins_in w.db) 1)) [
      | inl last ↦ rw (healthy (suc w.tick), run) (rw last refl)
      | inr more ↦ rw (healthy (suc w.tick), run) (rw more (rewritten (elapse (elapse w)) healthy))
    ])
  ]

  -- With no failing statement and no interruption, `ChangeRole` refuses a text that is no role, an
  -- unknown user, and to take the role of the only admin away, each without a change; otherwise it
  -- stores the role for the user and changes nothing else.
  pub change_role-role_spec : outcome (change_role id role) w ≡ role_spec id role w.db
  unfolding change_role valid_role
  change_role-role_spec = elim (Bool-cases (is_role role)) [
    | inr unknown ↦ rw unknown refl
    | inl valid ↦ rw valid (elim (Option-cases (first (is_user id) w.db.users)) [
      | inl missing ↦ rw (find_then-none id w healthy _ missing) (rw missing refl)
      | inr (u, found) ↦
          rw (find_then-some id w healthy _ found) (guarded u found ∙ (rw found refl))
    ])
  ]
