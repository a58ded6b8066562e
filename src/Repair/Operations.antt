-- ===== src/Repair/Operations.antt =====
-- The operations of repair.go, step by step, under an invariant of the database.
use starfighter_workflow.Common.{ℕ, ℤ, String, Bool, true, not-false, Option, none, some, ◌≡◌}
use starfighter_workflow.Db.{Db, RequestRow}
use starfighter_workflow.Db.Exec.{statement}
use starfighter_workflow.Db.Keeps.{Keeps, Keeps-statement, keeps_rules}
use starfighter_workflow.Repair.States.{Status}
use starfighter_workflow.Repair.{
  Error, Request, ListFilter, list, CreateInput, or_not_found, get, insert_request, create_checked,
  create, update_requests, claim, take_over, move_request, transition, set_priority,
}
use starfighter_workflow.Repair.Lifecycle.{
  IsSound, IsSoundRow, set_claimed-IsSoundRow, set_owner-IsSoundRow, set_status-IsSoundRow,
  set_priority_of-IsSoundRow, update_requests-IsSound, insert_request-IsSound,
}
use starfighter_workflow.Repair.Kept.{IsKept}

pub IsSound-IsKept : IsKept IsSound
IsSound-IsKept = record {
  insert_request-keeps = insert_request-IsSound;
  update_requests-keeps = update_requests-IsSound;
}

module _ (P : Db → Type 0) (kept : IsKept P) where
  update_requests-Keeps :
      (p : RequestRow → Bool) (f : RequestRow → RequestRow) (owner : Option ℤ) (bad : Error)
      → ((r : RequestRow) → (f r).id ≡ r.id)
      → ((r : RequestRow) → (f r).machine_id ≡ r.machine_id)
      → ((r : RequestRow) → p r ≡ true → IsSoundRow r → IsSoundRow (f r))
      → Keeps P (statement bad (update_requests p f owner))
  update_requests-Keeps p f owner bad same machine sound =
      Keeps-statement bad (update_requests p f owner)
        (kept.update_requests-keeps p f owner same machine sound)

  insert_request-Keeps :
      (bad : Error) (input : CreateInput) (by : ℤ) (t : ℕ)
      → Keeps P (statement bad (insert_request input by t))
  insert_request-Keeps bad input by t =
      Keeps-statement bad (insert_request input by t) (kept.insert_request-keeps input by t)

  or_not_found-Keeps : (o : Option Request) → Keeps P (or_not_found o)
  unfolding or_not_found
  or_not_found-Keeps none = search keeps_rules
  or_not_found-Keeps (some r) = search keeps_rules

  pub get-Keeps : (id : ℤ) → Keeps P (get id)
  unfolding get
  get-Keeps id = search (keeps_rules, or_not_found-Keeps)

  pub claim-Keeps : (id actor : ℤ) → Keeps P (claim id actor)
  unfolding claim
  claim-Keeps id actor =
      search (keeps_rules, get-Keeps, update_requests-Keeps, set_claimed-IsSoundRow id actor) depth
        9

  pub take_over-Keeps : (id actor : ℤ) → Keeps P (take_over id actor)
  unfolding take_over
  take_over-Keeps id actor =
      search (keeps_rules, get-Keeps, update_requests-Keeps, set_owner-IsSoundRow id actor) depth 9

  create_checked-Keeps : (input : CreateInput) (by : ℤ) → Keeps P (create_checked input by)
  unfolding create_checked
  create_checked-Keeps input by = search (keeps_rules, get-Keeps, insert_request-Keeps) depth 9

  pub create-Keeps : (input : CreateInput) (by : ℤ) → Keeps P (create input by)
  unfolding create
  create-Keeps input by = search (keeps_rules, create_checked-Keeps)

  move_request-Keeps : (id : ℤ) (to : Status) (cur : Request) → Keeps P (move_request id to cur)
  unfolding move_request
  move_request-Keeps id to cur =
      search
        (
          keeps_rules,
          get-Keeps,
          update_requests-Keeps,
          set_status-IsSoundRow cur.status to,
          not-false,
        )
        depth 12

  pub transition-Keeps : (id : ℤ) (to : Status) → Keeps P (transition id to)
  unfolding transition
  transition-Keeps id to = search (keeps_rules, get-Keeps, move_request-Keeps)

  pub set_priority-Keeps : (id : ℤ) (priority : String) → Keeps P (set_priority id priority)
  unfolding set_priority
  set_priority-Keeps id priority =
      search
        (
          keeps_rules,
          get-Keeps,
          update_requests-Keeps,
          set_priority_of-IsSoundRow priority,
          not-false,
        )
        depth 12

  pub list-Keeps : (f : ListFilter) → Keeps P (list f)
  unfolding list
  list-Keeps f = search keeps_rules
