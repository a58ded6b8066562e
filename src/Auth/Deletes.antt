-- ===== src/Auth/Deletes.antt =====
-- `Delete` of auth.go, and `Lookup` of the sessions of the user who is deleted.
use mathlib.Core.List.{map}
use starfighter_workflow.Common.{
  not, List, [], ◌∷◌, refl, ℕ, ℤ, ◌=ℤ◌, String, true, none, some, ◌≡◌, refl, ap, ◌∙◌, sym, ◌==◌,
  leb, ltb, ◌=ℕ◌, Result, ok, err, arith, Bool-cases, Option-cases, inl, inr, if◌then◌else◌, Option,
  ◌&&◌,
}
use starfighter_workflow.Sql.Rows.{
  where_rows, update, first, count, first_zero, first_dropped, delete, first-and_gone,
}
use starfighter_workflow.Db.{Db, MachineRow, RequestRow, UserRow, SessionRow, is_user}
use starfighter_workflow.Db.Exec.{World, Prog, ◌>>=◌, run, outcome, statement, elapse, IsHealthy}
use starfighter_workflow.Db.Keeps.{Keeps-run}
use starfighter_workflow.Auth.{
  Error, User, storage, user_not_found, last_admin, session_not_found, role_admin, has_token,
  is_live, or_missing, find_by_id, count_admins, count_admins_of, keep_an_admin, delete_user,
  delete_by_id, forget, forget_machine, forget_request, lookup, scan_user,
}
use starfighter_workflow.Auth.Admins.{admins_in, report_deleted}
use starfighter_workflow.Auth.Accounts.{IsSound}
use starfighter_workflow.Auth.Sound.{IsSound-IsKept}
use starfighter_workflow.Auth.Operations.{delete_by_id-Keeps}
use starfighter_workflow.Auth.Sessions.{lookup_refused}

-- a reference to a user, none if it is to `id`
abbrev pub unless : ℤ → Option ℤ → Option ℤ
unless id none = none
unless id (some u) = if u =ℤ id then none else some u

abbrev pub machine_without : ℤ → MachineRow → MachineRow
machine_without id m = record m { created_by = unless id m.created_by }

abbrev pub request_without : ℤ → RequestRow → RequestRow
request_without id r = record r {
  assigned_to = unless id r.assigned_to;
  created_by = unless id r.created_by;
}

-- the database without the user `id`: no account, no session, and nobody where the user was named
abbrev pub without : ℤ → Db → Db
without id d = record d {
  users = where_rows (λ u. not (u.id =ℤ id)) d.users;
  sessions = where_rows (λ s. not (s.user_id =ℤ id)) d.sessions;
  machines = map (machine_without id) d.machines;
  requests = map (request_without id) d.requests;
}

-- a user is removed who is not the only admin
abbrev pub delete_found : ℤ → Db → UserRow → Result Error Unit × Db
delete_found id d u =
    if u.role == "admin" && leb (admins_in d) 1 then (err last_admin, d) else (ok tt, without id d)

abbrev pub delete_option : ℤ → Db → Option UserRow → Result Error Unit × Db
delete_option id d none = (err user_not_found, d)
delete_option id d (some u) = delete_found id d u

abbrev pub delete_spec : ℤ → Db → Result Error Unit × Db
delete_spec id d = delete_option id d (first (is_user id) d.users)

update-map :
    {A : Type 0} (f g : A → A) (xs : List A)
    → ((x : A) → f x ≡ g x)
    → update (λ x. true) f xs ≡ map g xs
unfolding update
update-map f g [] h = refl
update-map f g (x ∷ xs) h = λ i. h x i ∷ update-map f g xs h i

forget-unless : (id : ℤ) (o : Option ℤ) → forget id o ≡ unless id o
forget-unless id none = refl
forget-unless id (some u) = refl

delete_user-without : (id : ℤ) (d : Db) → (delete_user id d).1 ≡ without id d
unfolding delete_user delete
delete_user-without id d =
    let m =
      update-map (forget_machine id) (machine_without id) d.machines
        (λ m. ap (λ o. record m { created_by = o }) (forget-unless id m.created_by)) in
    let r = update-map (forget_request id) (request_without id) d.requests (λ r. λ i. record r {
      assigned_to = forget-unless id r.assigned_to i;
      created_by = forget-unless id r.created_by i;
    }) in
    λ i. record d {
      users = delete (is_user id) d.users;
      sessions = delete (λ s. s.user_id =ℤ id) d.sessions;
      machines = m i;
      requests = r i;
    }

module _ (id : ℤ) (w : World) (healthy : IsHealthy w) {B : Type 0} (k : User → Prog Error B) where
  pub find_then-none :
      first (is_user id) w.db.users ≡ none
      → run (find_by_id id >>= k) w ≡ (err user_not_found, elapse w)
  unfolding find_by_id or_missing
  find_then-none h = rw (healthy w.tick, run) (rw h)

  pub find_then-some :
      {u : UserRow}
      → first (is_user id) w.db.users ≡ some u
      → run (find_by_id id >>= k) w ≡ run (k (scan_user u)) (elapse w)
  unfolding find_by_id or_missing
  find_then-some h = rw (healthy w.tick, run) (rw h)

removed_rows :
    (id : ℤ) (w : World) {u : UserRow}
    → IsHealthy w
    → first (is_user id) w.db.users ≡ some u
    → outcome (statement storage (delete_user id) >>= report_deleted) w
      ≡ (ok tt, (delete_user id w.db).1)
unfolding delete_user
removed_rows id w healthy found = elim (Bool-cases (count (is_user id) w.db.users =ℕ 0)) [
  | inl zero_left ↦ absurd (ground (arith, first_zero (is_user id) w.db.users))
  | inr some_left ↦ rw (healthy w.tick, run) (rw some_left)
]

removed :
    (id : ℤ) (w : World) {u : UserRow}
    → IsHealthy w
    → first (is_user id) w.db.users ≡ some u
    → outcome (statement storage (delete_user id) >>= report_deleted) w ≡ (ok tt, without id w.db)
removed id w healthy found =
    removed_rows id w healthy found ∙ ap (λ d. (ok tt, d)) (delete_user-without id w.db)

module _ (id : ℤ) (w : World) {u : UserRow} (healthy : IsHealthy w)
    (found : first (is_user id) w.db.users ≡ some u) where
  abbrev guarded : Prog Error Unit
  guarded = keep_an_admin (u.role == role_admin) >>= λ _.
      statement storage (delete_user id) >>= report_deleted

  guarded-delete_found : outcome guarded w ≡ delete_found id w.db u
  unfolding keep_an_admin count_admins count_admins_of
  guarded-delete_found = elim (Bool-cases (u.role == role_admin)) [
    | inr plain ↦ rw plain (removed id w healthy found)
    | inl admin ↦ rw admin (elim (Bool-cases (leb (admins_in w.db) 1)) [
      | inl last ↦ rw (healthy w.tick, run) (rw last)
      | inr more ↦ rw (healthy w.tick, run) (rw more (removed id (elapse w) healthy found))
    ])
  ]

-- With no interruption and no failing statement, `Delete` refuses an unknown user and the only
-- admin, and otherwise removes the user with everything that names the user; a refusal changes
-- nothing.
pub delete_by_id-delete_spec :
    (id : ℤ) (w : World) → IsHealthy w → outcome (delete_by_id id) w ≡ delete_spec id w.db
unfolding delete_by_id
delete_by_id-delete_spec id w healthy = elim (Option-cases (first (is_user id) w.db.users)) [
  | inl missing ↦ rw (find_then-none id w healthy _ missing) (rw missing refl)
  | inr (u, found) ↦
      ap (λ (v : Result Error Unit × World). (v.0, v.1.db)) (find_then-some id w healthy _ found)
      ∙ guarded-delete_found id (elapse w) healthy found
      ∙ (rw found refl)
]

-- what a successful `Delete` leaves
deleted : (id : ℤ) (d : Db) → (delete_spec id d).0 ≡ ok tt → (delete_spec id d).1 ≡ without id d
deleted id d h = elim (Option-cases (first (is_user id) d.users)) [
  | inl missing ↦ absurd (ground arith)
  | inr (u, found) ↦ rw found (ground arith)
]

sessions_gone :
    (id : ℤ) (token : String) (t : ℕ) (d : Db) {s : SessionRow}
    → IsSound d
    → first (has_token token) d.sessions ≡ some s
    → (s.user_id =ℤ id) ≡ true
    → first (is_live token t) (without id d).sessions ≡ none
sessions_gone id token t d sound found owned =
    first-and_gone (has_token token) (λ x. ltb t x.expires_at) _
      (unfold delete in
        first_dropped (has_token token) (λ x. x.user_id =ℤ id) d.sessions (sound.tokens token) found
          owned)

-- In sound accounts, after a `Delete` that succeeds with no failing statement, a `Lookup` of a token
-- of the deleted user, with no failing statement and at any time, is refused and changes nothing.
pub delete_by_id-lookup :
    (id : ℤ) (token : String) (s : SessionRow) (w next : World)
    → IsHealthy w
    → IsHealthy next
    → IsSound w.db
    → (outcome (delete_by_id id) w).0 ≡ ok tt
    → first (has_token token) w.db.sessions ≡ some s
    → (s.user_id =ℤ id) ≡ true
    → next.db ≡ (outcome (delete_by_id id) w).1
    → outcome (lookup token) next ≡ (err session_not_found, next.db)
delete_by_id-lookup id token s w next healthy next_healthy sound good found owned same =
    lookup_refused token next next_healthy
      (rw same (Keeps-run (delete_by_id-Keeps IsSound IsSound-IsKept id) w sound))
      (rw
        (same
          ∙ ap (λ o. o.1) (delete_by_id-delete_spec id w healthy)
          ∙ deleted id w.db (sym (ap (λ o. o.0) (delete_by_id-delete_spec id w healthy)) ∙ good))
        (sessions_gone id token (next.clock next.tick) w.db sound found owned))
