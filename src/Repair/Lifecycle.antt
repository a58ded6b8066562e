-- ===== src/Repair/Lifecycle.antt =====
-- The invariant of the table repair_requests, and the statements of repair.go under it.
use mathlib.Core.Bool.{false≢true}
use starfighter_workflow.Common.{
  ℕ, suc, ℤ, pos, String, Bool, true, ◌&&◌, Option, none, some, [], ◌∷◌, ◌≡◌, refl, sym, ap, ◌∙◌,
  ◌==◌, eq_iff, arith, All, All-append, is_some, and_left, and_right,
}
use starfighter_workflow.Sql.Rows.{All-update}
use starfighter_workflow.Db.{Db, RequestRow, is_known, has_machine}
use starfighter_workflow.Db.Keys.{IsKeyed, IsKeyed-append, IsKeyed-update}
use starfighter_workflow.Db.Keeps.{commit_if-keeps}
use starfighter_workflow.Repair.States.{
  Status, status_received, status_in_repair, valid_status, is_terminal, can_transition,
}
use starfighter_workflow.Repair.States.Stages.{
  can_transition-valid_right, can_transition-ne-received,
}
use starfighter_workflow.Repair.{
  CreateInput, has_id, is_owned, valid_priority, new_request, insert_request, update_requests,
  set_claimed, set_owner, set_status, set_priority_of,
}

-- The row is in a stage of the workflow: unowned while it is `received`, closed exactly when its
-- status is terminal.
pub record IsSoundRow (r : RequestRow) : Type 0 where
  pub valid : valid_status r.status ≡ true
  pub triaged : valid_priority r.priority ≡ true
  pub unclaimed : r.status ≡ status_received → r.assigned_to ≡ none
  pub closed : is_some r.closed_at ≡ is_terminal r.status

pub record IsSound (d : Db) : Type 0 where
  pub rows : All IsSoundRow d.requests
  pub keys : IsKeyed (λ r. r.id) d.request_seq d.requests
  pub linked : All (λ r. has_machine d r.machine_id ≡ true) d.requests

module _ (p : RequestRow → Bool) (f : RequestRow → RequestRow) (owner : Option ℤ) where
  pub update_requests-IsSound :
      ((r : RequestRow) → (f r).id ≡ r.id)
      → ((r : RequestRow) → (f r).machine_id ≡ r.machine_id)
      → ((r : RequestRow) → p r ≡ true → IsSoundRow r → IsSoundRow (f r))
      → (d : Db) → IsSound d
      → IsSound (update_requests p f owner d).1
  unfolding update_requests
  update_requests-IsSound same machine sound d s =
      commit_if-keeps IsSound _ _ _
        (λ _. record {
          rows = All-update IsSoundRow p f d.requests sound s.rows;
          keys = IsKeyed-update _ _ p f d.requests same s.keys;
          linked =
              All-update (λ r. has_machine d r.machine_id ≡ true) p f d.requests
                (λ r _ h. rw (machine r) h) s.linked;
        })
        s

pub set_claimed-IsSoundRow :
    (id actor : ℤ) (t : ℕ) (r : RequestRow)
    → (has_id id r && r.status == status_received) ≡ true
    → IsSoundRow r
    → IsSoundRow (set_claimed actor t r)
unfolding valid_status is_terminal
set_claimed-IsSoundRow id actor t r p s = record {
  valid = refl;
  triaged = s.triaged;
  unclaimed = λ e. absurd (false≢true ((eq_iff status_in_repair status_received).1 e));
  closed =
      s.closed ∙ ap is_terminal ((eq_iff r.status status_received).0 (and_right (has_id id r) _ p));
}

pub set_owner-IsSoundRow :
    (id actor : ℤ) (t : ℕ) (r : RequestRow)
    → (has_id id r && is_owned r.status) ≡ true
    → IsSoundRow r
    → IsSoundRow (set_owner actor t r)
set_owner-IsSoundRow id actor t r p s = record {
  valid = s.valid;
  triaged = s.triaged;
  unclaimed = λ e. absurd (false≢true (sym (ap is_owned e) ∙ and_right (has_id id r) _ p));
  closed = s.closed;
}

pub set_status-IsSoundRow :
    (from to : Status) (t : ℕ) (r : RequestRow)
    → can_transition from to ≡ true
    → IsSoundRow r
    → IsSoundRow (set_status to t r)
set_status-IsSoundRow from to t r h s = record {
  valid = can_transition-valid_right from to h;
  triaged = s.triaged;
  unclaimed = λ e. absurd (can_transition-ne-received from to h e);
  closed = ground arith;
}

pub set_priority_of-IsSoundRow :
    (priority : String) (t : ℕ) (r : RequestRow)
    → valid_priority priority ≡ true
    → IsSoundRow r
    → IsSoundRow (set_priority_of priority t r)
set_priority_of-IsSoundRow priority t r h s = record {
  valid = s.valid;
  triaged = h;
  unclaimed = s.unclaimed;
  closed = s.closed;
}

new_request-IsSoundRow :
    (input : CreateInput) (by : ℤ) (t : ℕ) (id : ℤ)
    → valid_priority input.priority ≡ true
    → IsSoundRow (new_request input by t id)
unfolding valid_status is_terminal
new_request-IsSoundRow input by t id h = record {
  valid = refl;
  triaged = h;
  unclaimed = λ e. refl;
  closed = refl;
}

-- a new row is unclaimed, open and has the next id
pub insert_request-IsSound :
    (input : CreateInput) (by : ℤ) (t : ℕ) (d : Db)
    → IsSound d
    → IsSound (insert_request input by t d).1
unfolding insert_request
insert_request-IsSound input by t d s =
    let new = new_request input by t (pos (suc d.request_seq)) in
    commit_if-keeps IsSound _ _ _
      (λ allowed. record {
        rows =
            All-append IsSoundRow d.requests (new ∷ []) s.rows
              (new_request-IsSoundRow input by t _ (and_right _ _ allowed), tt);
        keys = IsKeyed-append _ _ d.requests new s.keys refl;
        linked = All-append _ d.requests (new ∷ []) s.linked (known (and_left _ _ allowed), tt);
      })
      s
  where
    known :
        (has_machine d input.machine_id && is_known d (some by)) ≡ true
        → has_machine d input.machine_id ≡ true
    known h = and_left _ _ h
