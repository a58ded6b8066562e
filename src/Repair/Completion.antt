-- ===== src/Repair/Completion.antt =====
-- One request from its claim to its completion.
use starfighter_workflow.Common.{suc, ℤ, true, some, ◌≡◌, refl, ap, ◌∙◌, ok, err}
use starfighter_workflow.Db.{Db, RequestRow, is_known}
use starfighter_workflow.Db.Exec.{World, outcome, IsHealthy}
use starfighter_workflow.Db.Keeps.{Keeps-run}
use starfighter_workflow.Repair.States.{
  Status, status_received, status_in_repair, status_completed, valid_status, all_statuses,
  is_terminal, can_transition, transitions,
}
use starfighter_workflow.Repair.{
  claim_failed, not_ownable, bad_transition, claim, take_over, transition,
}
use starfighter_workflow.Repair.Lifecycle.{IsSound}
use starfighter_workflow.Repair.Operations.{IsSound-IsKept, claim-Keeps, transition-Keeps}
use starfighter_workflow.Repair.Spec.{is_status}
use starfighter_workflow.Repair.Spec.{
  row_of, view, store, on_row-some, decide_claim, decide_take_over, decide_transition,
}
use starfighter_workflow.Repair.Reads.{row_of-store}
use starfighter_workflow.Repair.Refines.{claim-on_row, take_over-on_row}
use starfighter_workflow.Repair.Moves.{transition-on_row}

-- a completed request: whoever tries, it stays as it is
module _ (id : ℤ) (w : World) (healthy : IsHealthy w) (sound : IsSound w.db) {r : RequestRow}
    (here : row_of id w.db ≡ some r) (done : r.status ≡ status_completed) where
  claim-refused :
      (actor : ℤ)
      → is_known w.db (some actor) ≡ true
      → outcome (claim id actor) w ≡ (err claim_failed, w.db)
  claim-refused actor known =
      claim-on_row id actor w healthy sound known
      ∙ on_row-some id (decide_claim actor (w.clock w.tick)) w.db here
      ∙ (rw done refl)

  take_over-refused :
      (actor : ℤ)
      → is_known w.db (some actor) ≡ true
      → outcome (take_over id actor) w ≡ (err not_ownable, w.db)
  take_over-refused actor known =
      take_over-on_row id actor w healthy sound known
      ∙ on_row-some id (decide_take_over actor (w.clock w.tick)) w.db here
      ∙ (rw done refl)

  transition-refused :
      (to : Status)
      → valid_status to ≡ true
      → outcome (transition id to) w ≡ (err (bad_transition status_completed to), w.db)
  unfolding valid_status all_statuses
  transition-refused to valid =
      let known : is_status to ≡ true = valid in
      transition-on_row id w healthy sound to
      ∙ (rw known
          (on_row-some id (decide_transition to (w.clock (suc w.tick))) w.db here ∙ (rw done refl)))

module _ (id actor : ℤ) (w next : World) (healthy : IsHealthy w) (next_healthy : IsHealthy next)
    (sound : IsSound w.db) (known : is_known w.db (some actor) ≡ true) {r : RequestRow}
    (here : row_of id w.db ≡ some r) (received : r.status ≡ status_received) where
  -- the row of the actor, and the closed one
  abbrev claimed : RequestRow
  claimed = record r {
    status = status_in_repair;
    assigned_to = some actor;
    updated_at = w.clock w.tick;
  }

  abbrev closed : RequestRow
  closed = record claimed {
    status = status_completed;
    updated_at = next.clock (suc next.tick);
    closed_at = some (next.clock (suc next.tick));
  }

  claims : outcome (claim id actor) w ≡ (ok (view w.db claimed), store id claimed w.db)
  claims =
      claim-on_row id actor w healthy sound known
      ∙ on_row-some id (decide_claim actor (w.clock w.tick)) w.db here
      ∙ (rw received refl)

  module _ (left : next.db ≡ (outcome (claim id actor) w).1) where
    abbrev in_repair : Db
    in_repair = store id claimed w.db

    stored : next.db ≡ in_repair
    stored = left ∙ ap (λ o. o.1) claims

    next-IsSound : IsSound next.db
    next-IsSound = rw left (Keeps-run (claim-Keeps IsSound IsSound-IsKept id actor) w sound)

    claimed_here : row_of id next.db ≡ some claimed
    claimed_here = ap (row_of id) stored ∙ row_of-store id w.db sound here claimed refl refl

    completes :
        outcome (transition id status_completed) next
        ≡ (ok (view next.db closed), store id closed next.db)
    unfolding valid_status can_transition transitions is_terminal
    completes =
        transition-on_row id next next_healthy next-IsSound status_completed
        ∙ on_row-some id (decide_transition status_completed (next.clock (suc next.tick))) next.db
            claimed_here

    -- With no failing statement and no interruption between the steps of a call, in a sound database
    -- and for an actor who is a user: a Claim of a received request, then a Transition to completed
    -- on the database that it left, succeed and give the request to the actor and close it at the
    -- time of the Transition. On the database that is then left, every later Claim and TakeOver by a
    -- user and every Transition to a status is refused and changes nothing.
    pub claim-transition :
        (last : World)
        → IsHealthy last
        → last.db ≡ (outcome (transition id status_completed) next).1
        → ((outcome (claim id actor) w).0 ≡ ok (view w.db claimed))
          × ((outcome (transition id status_completed) next).0 ≡ ok (view next.db closed))
          × ((other : ℤ)
              → is_known last.db (some other) ≡ true
              → (outcome (claim id other) last ≡ (err claim_failed, last.db))
                × (outcome (take_over id other) last ≡ (err not_ownable, last.db)))
          × ((to : Status)
              → valid_status to ≡ true
              → outcome (transition id to) last
                ≡ (err (bad_transition status_completed to), last.db))
    claim-transition last last_healthy left_last = (
      ap (λ o. o.0) claims,
      ap (λ o. o.0) completes,
      λ other known_other. (
        claim-refused id last last_healthy last-IsSound closed_here refl other known_other,
        take_over-refused id last last_healthy last-IsSound closed_here refl other known_other,
      ),
      transition-refused id last last_healthy last-IsSound closed_here refl,
    )
      where
        last-IsSound : IsSound last.db
        last-IsSound = rw left_last (
            Keeps-run (transition-Keeps IsSound IsSound-IsKept id status_completed) next
              next-IsSound)

        closed_here : row_of id last.db ≡ some closed
        closed_here =
            ap (row_of id) (left_last ∙ ap (λ o. o.1) completes)
            ∙ row_of-store id next.db next-IsSound claimed_here closed refl refl
