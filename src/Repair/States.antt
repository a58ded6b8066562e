-- ===== src/Repair/States.antt =====
-- internal/repair/states.go: the workflow state machine. A status is free text.
pub mod Stages
use starfighter_workflow.Common.{
  String, Bool, true, false, not, ◌||◌, List, [], ◌∷◌, ◌==◌, if◌then◌else◌, any, map_get,
}

abbrev pub Status : Type 0
Status = String

abbrev pub status_received : Status
status_received = "received"

abbrev pub status_in_repair : Status
status_in_repair = "in_repair"

abbrev pub status_awaiting_parts : Status
status_awaiting_parts = "awaiting_parts"

abbrev pub status_completed : Status
status_completed = "completed"

abbrev pub status_cancelled : Status
status_cancelled = "cancelled"

unfoldable pub all_statuses : List Status
all_statuses =
    status_received ∷ status_in_repair ∷ status_awaiting_parts ∷ status_completed ∷ status_cancelled
    ∷ []

unfoldable pub terminal_statuses : List (Status × Bool)
terminal_statuses = (status_completed, true) ∷ (status_cancelled, true) ∷ []

unfoldable pub transitions : List (Status × List Status)
transitions =
    (status_received, status_in_repair ∷ [])
    ∷ (status_in_repair, status_awaiting_parts ∷ status_completed ∷ [])
    ∷ (status_awaiting_parts, status_in_repair ∷ status_completed ∷ [])
    ∷ (status_completed, [])
    ∷ (status_cancelled, [])
    ∷ []

unfoldable pub valid_status : Status → Bool
unfolding all_statuses
valid_status s = any (λ v. v == s) all_statuses

unfoldable pub is_terminal : Status → Bool
unfolding terminal_statuses
is_terminal s = map_get false s terminal_statuses

unfoldable pub can_transition : Status → Status → Bool
unfolding valid_status is_terminal transitions
can_transition from to =
    if not (valid_status from) || not (valid_status to) || from == to
    then false
    else if to == status_cancelled
    then not (is_terminal from)
    else any (λ allowed. allowed == to) (map_get [] from transitions)

-- the loop of `AllowedNext` over `AllStatuses`
pub next_among : Status → List Status → List Status
next_among from [] = []
next_among from (to ∷ rest) =
    let later = next_among from rest in if can_transition from to then to ∷ later else later

pub allowed_next : Status → List Status
allowed_next from = next_among from all_statuses
