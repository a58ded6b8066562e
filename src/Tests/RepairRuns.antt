-- ===== src/Tests/RepairRuns.antt =====
-- Runs of the repair workflow on the small database.
use mathlib.Core.List.{map}
use starfighter_workflow.Common.{◌≤◌, pos, true, ◌≡◌, [], ◌∷◌, err, ◌↔◌}
use starfighter_workflow.Db.Exec.{outcome}
use starfighter_workflow.Db.Threads.{interleave, winners}
use starfighter_workflow.Repair.{claim, transition}
use starfighter_workflow.Repair.States.{valid_status, can_transition}
use starfighter_workflow.Repair.States.Stages.{Move, can_transition_iff}
use starfighter_workflow.Repair.Spec.{on_row, decide_transition}
use starfighter_workflow.Repair.Completion.{claim-transition}
use starfighter_workflow.Common.{◌+◌, some, ℤ, ◌=ℤ◌, refl}
use starfighter_workflow.Sql.Rows.{first}
use starfighter_workflow.Db.{RequestRow, is_known}
use starfighter_workflow.Db.Exec.{World}
use starfighter_workflow.Repair.{claim_failed, not_ownable, bad_transition, take_over}
use starfighter_workflow.Repair.States.{Status}
use starfighter_workflow.Repair.Spec.{row_of, view}
use starfighter_workflow.Tests.Shop.{shop, fresh_request}
use starfighter_workflow.Repair.Moves.{transition-on_row}
use starfighter_workflow.Repair.Claims.{unclaimed, claim_first_wins}
use starfighter_workflow.Repair.{CreateInput, create}
use starfighter_workflow.Repair.Creates.{create_spec, create-create_spec}
use starfighter_workflow.Common.{List, ok, none}
use starfighter_workflow.Repair.{ListFilter, Request, list}
use starfighter_workflow.Repair.Listing.{IsListing, list-IsListing}
use starfighter_workflow.Tests.Shop.{day, day-IsHealthy, shop-requests, bob_known}

-- Ada and Bob claim the same request, step by step in turn
claim_first_wins_example :
    winners
        (interleave (0 ∷ 1 ∷ 0 ∷ 1 ∷ 0 ∷ 1 ∷ []) (map (claim (pos 1)) (pos 1 ∷ pos 2 ∷ [])) day).0
      ≤ unclaimed (pos 1) day.db
    × unclaimed (pos 1) day.db ≤ 1
claim_first_wins_example =
    claim_first_wins (pos 1) (pos 1 ∷ pos 2 ∷ []) (0 ∷ 1 ∷ 0 ∷ 1 ∷ 0 ∷ 1 ∷ []) day shop-requests

-- Bob claims the new request, and completes it ten seconds later
abbrev claimed_day : World
claimed_day = record day { db = (outcome (claim (pos 1) (pos 2)) day).1; clock = λ n. ◌+◌ 50 n }

abbrev completed_day : World
completed_day = record day { db = (outcome (transition (pos 1) "completed") claimed_day).1 }

abbrev bobs_claim : RequestRow
bobs_claim = record fresh_request {
  status = "in_repair";
  assigned_to = some (pos 2);
  updated_at = 40;
}

fresh_request_here : row_of (pos 1) shop ≡ some fresh_request
unfolding first ◌=ℤ◌
fresh_request_here = refl

claim-transition_example :
    ((outcome (claim (pos 1) (pos 2)) day).0 ≡ ok (view shop bobs_claim))
    × ((outcome (transition (pos 1) "completed") claimed_day).0
        ≡ ok (
            view claimed_day.db
              (record bobs_claim { status = "completed"; updated_at = 51; closed_at = some 51 })))
    × ((other : ℤ)
        → is_known completed_day.db (some other) ≡ true
        → (outcome (claim (pos 1) other) completed_day ≡ (err claim_failed, completed_day.db))
          × (outcome (take_over (pos 1) other) completed_day ≡ (err not_ownable, completed_day.db)))
    × ((to : Status)
        → valid_status to ≡ true
        → outcome (transition (pos 1) to) completed_day
          ≡ (err (bad_transition "completed" to), completed_day.db))
claim-transition_example =
    claim-transition (pos 1) (pos 2) day claimed_day day-IsHealthy day-IsHealthy shop-requests
      bob_known {r = fresh_request} fresh_request_here refl refl completed_day day-IsHealthy refl

transition-on_row_example :
    outcome (transition (pos 2) "completed") day
    ≡ on_row (pos 2) (decide_transition "completed" 41) day.db
transition-on_row_example = transition-on_row (pos 2) day day-IsHealthy shop-requests "completed"

can_transition_iff_example :
    (can_transition "received" "in_repair" ≡ true) ↔ Move "received" "in_repair"
can_transition_iff_example = can_transition_iff "received" "in_repair"

abbrev new_fault : CreateInput
new_fault = record {
  machine_id = pos 1;
  problem_summary = " stuck joystick ";
  problem_detail = "";
  priority = "";
}

create-create_spec_example :
    outcome (create new_fault (pos 2)) day ≡ create_spec new_fault (pos 2) 40 day.db
create-create_spec_example = create-create_spec (pos 2) day day-IsHealthy shop-requests new_fault

abbrev open_ones : ListFilter
open_ones = record { status = ""; assigned_to = none; open_only = true }

list-IsListing_example :
    (rs : List Request) × (outcome (list open_ones) day ≡ (ok rs, day.db))
    × IsListing open_ones day.db rs
list-IsListing_example = list-IsListing open_ones day day-IsHealthy shop-requests
