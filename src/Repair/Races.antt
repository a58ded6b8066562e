-- ===== src/Repair/Races.antt =====
-- A schedule of two calls of `Transition`, which reads the status in one statement and writes in
-- another.
use mathlib.Core.List.{map}
use mathlib.Core.Option
use starfighter_workflow.Common.{pos, ◌=ℤ◌, some, [], ◌∷◌, ◌≡◌, refl}
use starfighter_workflow.Sql.Rows.{first, count, update, where_rows}
use starfighter_workflow.Db.Exec.{commit_if}
use starfighter_workflow.Db.Threads.{interleave}
use starfighter_workflow.Repair.States.{
  all_statuses, terminal_statuses, transitions, valid_status, is_terminal, can_transition,
}
use starfighter_workflow.Repair.{
  join, join_all, select_request, or_not_found, get, update_requests, move_request, transition,
  has_id,
}
use starfighter_workflow.Tests.Shop.{day}

-- One caller completes Bob's request, another sets it to wait for parts: both read `in_repair`, and
-- the later write takes the request out of `completed`.
reopened :
    Option.map
      (λ r. r.status)
      (first
        (has_id (pos 2))
        (interleave
          (0 ∷ 1 ∷ 0 ∷ 0 ∷ 1 ∷ 1 ∷ [])
          (map (transition (pos 2)) ("completed" ∷ "awaiting_parts" ∷ []))
          day).1.db.requests)
    ≡ some "awaiting_parts"
unfolding ◌=ℤ◌ first count update where_rows commit_if interleave all_statuses terminal_statuses
    transitions valid_status is_terminal can_transition join join_all select_request or_not_found
    get update_requests move_request transition
reopened = refl
