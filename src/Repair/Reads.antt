-- ===== src/Repair/Reads.antt =====
-- What reading a request back gives, before and after its row is replaced.
use mathlib.Core.Bool.{false≢true}
use starfighter_workflow.Common.{
  ◌≤◌, ℤ, ◌=ℤ◌, =ℤ_iff, true, is_some, Option-cases, inl, inr, none, some, ◌≡◌, refl, sym, ap, ◌∙◌,
  ok, err,
}
use starfighter_workflow.Sql.Rows.{
  first, count, where_unique, count-update, first-holds, first-update, All-first,
}
use starfighter_workflow.Db.{Db, RequestRow, is_machine, has_machine}
use starfighter_workflow.Db.Exec.{World, Prog, ◌>>=◌, run, elapse, IsHealthy, outcome}
use starfighter_workflow.Repair.Lifecycle.{IsSound}
use starfighter_workflow.Repair.Spec.{row_of, machine_name_of, view, store}
use starfighter_workflow.Repair.{
  Error, not_found, Request, has_id, or_not_found, scan_request, select_cols, username_of, join,
  join_all, select_request, get,
}

-- a row whose machine is there comes back as the row with the two names
pub join-view :
    (d : Db) (r : RequestRow) → has_machine d r.machine_id ≡ true → join d r ≡ some (view d r)
unfolding join
join-view d r linked = elim (Option-cases (first (is_machine r.machine_id) d.machines)) [
  | inl missing ↦ absurd (false≢true (sym (ap is_some missing) ∙ linked))
  | inr (m, found) ↦
      let same : m.id ≡ r.machine_id =
        (=ℤ_iff _ _).0 (first-holds (is_machine r.machine_id) d.machines found) in
      let named : m.name ≡ machine_name_of d r.machine_id = rw (found, machine_name_of) refl in
      ap (λ o. elim o [ none ↦ none | some n ↦ some (scan_request (select_cols d r n)) ]) found
      ∙ (λ i. some (record {
        row = record r { machine_id = same i };
        machine_name = named i;
        assigned_username = username_of d r.assigned_to;
      }))
]

module _ (id : ℤ) (d : Db) (unique : count (has_id id) d.requests ≤ 1) where
  select_request-none : row_of id d ≡ none → select_request id d ≡ none
  unfolding select_request
  select_request-none h = rw (where_unique (has_id id) d.requests unique, h)

  select_request-some :
      {r : RequestRow}
      → row_of id d ≡ some r
      → has_machine d r.machine_id ≡ true
      → select_request id d ≡ some (view d r)
  unfolding select_request
  select_request-some {r} h linked =
      rw (where_unique (has_id id) d.requests unique, h) (rw (join-view d r linked, join_all) refl)

-- what the closing read returns, and what it hides behind the error `e`
module _ (id : ℤ) (w : World) (healthy : IsHealthy w)
    (unique : count (has_id id) w.db.requests ≤ 1) where
  pub get-some :
      {r : RequestRow}
      → row_of id w.db ≡ some r
      → has_machine w.db r.machine_id ≡ true
      → outcome (get id) w ≡ (ok (view w.db r), w.db)
  unfolding get or_not_found
  get-some h linked = rw (healthy w.tick, run) (rw (select_request-some id w.db unique h linked))

  pub get-none : row_of id w.db ≡ none → outcome (get id) w ≡ (err not_found, w.db)
  unfolding get or_not_found
  get-none h = rw (healthy w.tick, run) (rw (select_request-none id w.db unique h))

  pub get_then-some :
      {B : Type 0} (k : Request → Prog Error B) {r : RequestRow}
      → row_of id w.db ≡ some r
      → has_machine w.db r.machine_id ≡ true
      → run (get id >>= k) w ≡ run (k (view w.db r)) (elapse w)
  unfolding get or_not_found
  get_then-some k h linked =
      rw (healthy w.tick, run) (rw (select_request-some id w.db unique h linked))

  pub get_then-none :
      {B : Type 0} (k : Request → Prog Error B)
      → row_of id w.db ≡ none
      → run (get id >>= k) w ≡ (err not_found, elapse w)
  unfolding get or_not_found
  get_then-none k h = rw (healthy w.tick, run) (rw (select_request-none id w.db unique h))

-- a row `new` with the id and the machine of the row that it replaces
module _ (id : ℤ) (d : Db) (sound : IsSound d) {r : RequestRow} (h : row_of id d ≡ some r)
    (new : RequestRow) (same : new.id ≡ r.id) (machine : new.machine_id ≡ r.machine_id) where
  pub linked_row : has_machine d r.machine_id ≡ true
  linked_row =
      All-first (λ x. has_machine d x.machine_id ≡ true) (has_id id) d.requests h sound.linked

  found : has_id id r ≡ true
  found = first-holds (has_id id) d.requests h

  keeps_id : (x : RequestRow) → has_id id x ≡ true → has_id id new ≡ has_id id x
  keeps_id x hx = ap (λ i. i =ℤ id) same ∙ found ∙ sym hx

  unique-store : count (has_id id) (store id new d).requests ≤ 1
  unique-store =
      rw (count-update (has_id id) (has_id id) (λ _. new) d.requests keeps_id)
        (sound.keys.unique id)

  pub row_of-store : row_of id (store id new d) ≡ some new
  row_of-store = rw (first-update (has_id id) (has_id id) (λ _. new) d.requests keeps_id, h, found)

  linked-store : has_machine (store id new d) new.machine_id ≡ true
  linked-store = rw machine linked_row

  pub get-store :
      (w : World)
      → IsHealthy w
      → outcome (get id) (record w { db = store id new d }) ≡ (ok (view d new), store id new d)
  get-store w healthy =
      get-some id (record w { db = store id new d }) healthy unique-store row_of-store linked-store
