-- ===== src/Auth/Admins.antt =====
-- The last admin: the guard of `Delete` and `ChangeRole` in auth.go.
use starfighter_workflow.Common.{
  ℕ, ◌+◌, ◌≤◌, ◌<◌, ℤ, String, Bool, true, false, not, ◌&&◌, some, ◌≡◌, ap, ◌==◌, leb, ◌=ℕ◌, arith,
  Bool-cases, Option-cases, ◌⊎◌, inl, inr, if◌then◌else◌,
}
use starfighter_workflow.Sql.Rows.{first, count, count-delete, count-update_split, count-first-some}
use starfighter_workflow.Db.{Db, UserRow, is_user}
use starfighter_workflow.Db.Exec.{
  World, Prog, ret, raise, ◌>>=◌, bind_assoc, run, elapse, statement,
}
use starfighter_workflow.Db.Posts.{Leaves, Leaves-statement, Leaves-query}
use starfighter_workflow.Auth.{
  Error, storage, user_not_found, last_admin, User, scan_user, role_admin, valid_role, or_missing,
  find_by_id, count_admins, count_admins_of, keep_an_admin, delete_user, delete_by_id, update_user,
  change_role,
}

abbrev pub admins_in : Db → ℕ
admins_in d = count (λ u. u.role == "admin") d.users

abbrev pub HasAdmin : Db → Type 0
HasAdmin d = 0 < admins_in d

abbrev pub AreUnique : Db → Type 0
AreUnique d = (id : ℤ) → count (is_user id) d.users ≤ 1

abbrev set_role : String → UserRow → UserRow
set_role role u = record u { role = role }

abbrev is_admin : UserRow → Bool
is_admin u = u.role == role_admin

-- a method that reads its user first
module _ {B : Type 0} (Q : Db → Type 0) (id : ℤ) (w : World) (k : User → Prog Error B) where
  Leaves-find_by_id :
      Q w.db
      → ((u : UserRow)
          → first (is_user id) w.db.users ≡ some u
          → Leaves Q (k (scan_user u)) (elapse w))
      → Leaves Q (find_by_id id >>= k) w
  unfolding find_by_id or_missing
  Leaves-find_by_id before after = rw bind_assoc (
      Leaves-query Q storage w
        (λ row. or_missing user_not_found row >>= (λ u. ret (scan_user u)) >>= k)
        (λ d. first (is_user id) d.users) before
        (elim (Option-cases (first (is_user id) w.db.users)) [
          | inl missing ↦ rw (missing, or_missing) before
          | inr (u, found) ↦ rw (found, or_missing) (after u found)
        ]))

module _ {B : Type 0} (Q : Db → Type 0) (demoted : Bool) (w : World) (k : Unit → Prog Error B) where
  Leaves-keep_an_admin :
      Q w.db
      → (demoted ≡ false → Leaves Q (k tt) w)
      → (demoted ≡ true → 1 < admins_in w.db → Leaves Q (k tt) (elapse w))
      → Leaves Q (keep_an_admin demoted >>= k) w
  unfolding keep_an_admin count_admins count_admins_of
  Leaves-keep_an_admin before kept checked = elim (Bool-cases demoted) [
    | inr spared ↦ rw spared (kept spared)
    | inl hit ↦
        rw (hit, bind_assoc)
          (Leaves-query Q storage w (λ n. (if leb n 1 then raise last_admin else ret tt) >>= k)
            admins_in before
            (elim (Bool-cases (leb (admins_in w.db) 1)) [
              | inl few ↦ rw few before
              | inr more ↦ rw more (checked hit (ground arith))
            ]))
  ]

-- deleting one user takes at most one admin away, and none if the user is no admin
admins-delete :
    (d : Db) (id : ℤ) {u : UserRow}
    → AreUnique d
    → first (is_user id) d.users ≡ some u
    → admins_in (delete_user id d).1 + (if is_admin u then 1 else 0) ≡ admins_in d
unfolding count_admins_of delete_user
admins-delete d id {u} unique found = omega (
  arith,
  count-delete (is_user id) is_admin d.users,
  count-first-some (is_user id) is_admin d.users (unique id) found,
)

abbrev pub report_deleted : ℕ → Prog Error Unit
report_deleted n = if n =ℕ 0 then raise user_not_found else ret tt

Leaves-delete :
    (id : ℤ) (w : World)
    → HasAdmin w.db
    → HasAdmin (delete_user id w.db).1
    → Leaves HasAdmin (statement storage (delete_user id) >>= report_deleted) w
unfolding delete_user
Leaves-delete id w before after =
    Leaves-statement HasAdmin storage w report_deleted (delete_user id) before
      (elim (Bool-cases (count (is_user id) w.db.users =ℕ 0)) [
        | inl none_left ↦ rw none_left after
        | inr some_left ↦ rw some_left after
      ])

weight : {b c : Bool} → b ≡ c → ◌≡◌ {A = ℕ} (if b then 1 else 0) (if c then 1 else 0)
weight e = ap (λ b. if b then ◌+◌ 1 0 else 0) e

-- Where user ids are unique, a `Delete` that nothing interrupts leaves an admin if there was one,
-- whatever statements fail.
pub delete_by_id-HasAdmin :
    (id : ℤ) (w : World) → AreUnique w.db → HasAdmin w.db → HasAdmin (run (delete_by_id id) w).1.db
unfolding delete_by_id
delete_by_id-HasAdmin id w unique h = Leaves-find_by_id HasAdmin id w _ h λ u found.
    let counted = admins-delete w.db id unique found in
    Leaves-keep_an_admin HasAdmin (is_admin u) (elapse w) _ h
      (λ spared. Leaves-delete id (elapse w) h (omega (arith, weight spared, counted)))
      (λ hit more. Leaves-delete id (elapse (elapse w)) h (omega (arith, weight hit, counted)))

-- a change of role takes an admin away only if it demotes one
admins-update :
    (d : Db) (id : ℤ) (role : String) {u : UserRow}
    → AreUnique d
    → first (is_user id) d.users ≡ some u
    → (is_admin u && not (role == role_admin)) ≡ false ⊎ 1 < admins_in d
    → HasAdmin d
    → HasAdmin (update_user id (set_role role) d).1
unfolding count_admins_of update_user
admins-update d id role {u} unique found safe h = ground (
  arith,
  count-update_split (is_user id) is_admin (set_role role) d.users,
  count-first-some (is_user id) is_admin d.users (unique id) found,
  count-first-some (is_user id) (λ v. is_admin (set_role role v)) d.users (unique id) found,
)

Leaves-set_role :
    (id : ℤ) (role : String) (w : World)
    → HasAdmin w.db
    → HasAdmin (update_user id (set_role role) w.db).1
    → Leaves HasAdmin (statement storage (update_user id (set_role role)) >>= (λ n. ret tt)) w
unfolding update_user
Leaves-set_role id role w before after =
    Leaves-statement HasAdmin storage w (λ n. ret tt) (update_user id (set_role role)) before after

-- Where user ids are unique, a `ChangeRole` that nothing interrupts leaves an admin if there was
-- one, whatever statements fail.
pub change_role-HasAdmin :
    (id : ℤ) (role : String) (w : World)
    → AreUnique w.db
    → HasAdmin w.db
    → HasAdmin (run (change_role id role) w).1.db
unfolding change_role
change_role-HasAdmin id role w unique h = elim (Bool-cases (valid_role role)) [
  | inr bad ↦ rw bad h
  | inl good ↦ rw good (
      Leaves-find_by_id HasAdmin id w _ h λ u found.
        Leaves-keep_an_admin HasAdmin (is_admin u && not (role == role_admin)) (elapse w) _ h
          (λ spared.
            Leaves-set_role id role (elapse w) h
              (admins-update w.db id role unique found (inl spared) h))
          (λ hit more.
            Leaves-set_role id role (elapse (elapse w)) h
              (admins-update w.db id role unique found (inr more) h)))
]
