-- ===== src/Auth/Accounts.antt =====
-- The invariant of the tables users and sessions, and the statements on users.
use starfighter_workflow.Common.{
  ℕ, suc, ◌≤◌, ℤ, pos, ◌=ℤ◌, =ℤ_iff, String, true, false, not, some, [], ◌∷◌, ◌++◌, ◌≡◌, refl, ap,
  arith, All, All-append, All-map, not-true, is_some, and_left, and_right,
}
use starfighter_workflow.Sql.Rows.{
  first, count, update, delete, where_rows, count-update, count-where-le, first-delete, All-update,
  All-where, All-kept,
}
use starfighter_workflow.Sql.Collate.{nocase_eq}
use starfighter_workflow.Db.{Db, UserRow, SessionRow, is_user, is_known}
use starfighter_workflow.Db.Unique.{is_none, is_some-append, is_some-update, IsNamed-append}
use starfighter_workflow.Db.Keys.{IsKeyed, IsKeyed-append, IsKeyed-update, IsKeyed-where}
use starfighter_workflow.Db.Keeps.{commit_if-keeps}
use starfighter_workflow.Auth.{
  valid_role, has_name, has_token, new_user, insert_user, update_user, delete_user,
}

pub record IsSound (d : Db) : Type 0 where
  pub keys : IsKeyed (λ u. u.id) d.user_seq d.users
  pub names : (name : String) → count (has_name name) d.users ≤ 1
  pub roles : All (λ u. valid_role u.role ≡ true) d.users
  pub tokens : (token : String) → count (has_token token) d.sessions ≤ 1
  pub owners : All (λ s. is_known d (some s.user_id) ≡ true) d.sessions

pub insert_user-IsSound :
    (username hash role display_name : String) (t : ℕ) (d : Db)
    → IsSound d
    → IsSound (insert_user username hash role display_name t d).1
unfolding insert_user
insert_user-IsSound username hash role display_name t d s =
    let new = new_user username hash role display_name t (pos (suc d.user_seq)) in
    commit_if-keeps IsSound _ _ _
      (λ allowed. record {
        keys = IsKeyed-append _ _ d.users new s.keys refl;
        names =
            IsNamed-append (λ u. u.username) d.users new s.names
              (is_none _ (and_right _ _ allowed));
        roles = All-append _ d.users (new ∷ []) s.roles (and_left _ _ allowed, tt);
        tokens = s.tokens;
        owners = All-map (λ x h. known x h) d.sessions s.owners;
      })
      s
  where
    known :
        (x : SessionRow)
        → is_known d (some x.user_id) ≡ true
        → is_some (
            first
              (is_user x.user_id)
              (d.users ++ new_user username hash role display_name t (pos (suc d.user_seq)) ∷ []))
          ≡ true
    known x h = is_some-append (is_user x.user_id) d.users _ h

module _ (id : ℤ) (f : UserRow → UserRow) where
  pub update_user-IsSound :
      ((u : UserRow) → (f u).id ≡ u.id)
      → ((u : UserRow) → (f u).username ≡ u.username)
      → ((u : UserRow) → valid_role u.role ≡ true → valid_role (f u).role ≡ true)
      → (d : Db) → IsSound d
      → IsSound (update_user id f d).1
  unfolding update_user
  update_user-IsSound same name role d s = record {
    keys = IsKeyed-update _ _ (is_user id) f d.users same s.keys;
    names = λ n.
        rw
          (count-update (has_name n) (is_user id) f d.users
            (λ u _. ap (λ m. nocase_eq m n) (name u)))
          (s.names n);
    roles = All-update _ (is_user id) f d.users (λ u _. role u) s.roles;
    tokens = s.tokens;
    owners = All-map (λ x h. known x h) d.sessions s.owners;
  }
    where
      known :
          (x : SessionRow)
          → is_known d (some x.user_id) ≡ true
          → is_some (first (is_user x.user_id) (update (is_user id) f d.users)) ≡ true
      known x h =
          is_some-update (is_user x.user_id) (is_user id) f d.users
            (λ u _. ap (λ i. i =ℤ x.user_id) (same u)) h

-- a user's sessions go with the user
pub delete_user-IsSound : (id : ℤ) (d : Db) → IsSound d → IsSound (delete_user id d).1
unfolding delete_user delete
delete_user-IsSound id d s = record {
  keys = IsKeyed-where _ _ _ d.users s.keys;
  names =
      λ n. omega (arith, count-where-le (has_name n) (λ u. not (is_user id u)) d.users, s.names n);
  roles = All-where _ _ d.users s.roles;
  tokens = λ t.
      omega
        (arith, count-where-le (has_token t) (λ x. not (x.user_id =ℤ id)) d.sessions, s.tokens t);
  owners = All-kept _ _ _ d.sessions (λ x kept h. known x (not-true _ kept) h) s.owners;
}
  where
    known :
        (x : SessionRow)
        → (x.user_id =ℤ id) ≡ false
        → is_known d (some x.user_id) ≡ true
        → is_some (first (is_user x.user_id) (where_rows (λ u. not (is_user id u)) d.users)) ≡ true
    known x other h =
        unfold delete in
        rw (first-delete (is_user x.user_id) (is_user id) d.users (λ u hit. distinct u hit)) h
      where
        distinct : (u : UserRow) → is_user x.user_id u ≡ true → is_user id u ≡ false
        distinct u hit = rw ((=ℤ_iff _ _).0 hit) other
