-- ===== src/Repair.antt =====
-- internal/repair/repair.go: repair requests and the operations on them. An operation is a program
-- of atomic SQL statements.
mod Tables
pub mod States
pub mod Lifecycle
pub mod Kept
pub mod Steps
pub mod Listing
pub mod Operations
pub mod Spec
pub mod Reads
pub mod Refines
pub mod Moves
pub mod Claims
pub mod Creates
pub mod Races
pub mod Completion
unfoldable pub use Tables.*
use starfighter_workflow.Common.{
  ℕ, suc, ℤ, pos, ◌=ℤ◌, ◌<ℤ◌, is_positive, String, Bool, true, false, not, ◌&&◌, ◌||◌, Option, none,
  some, List, [], ◌∷◌, ◌++◌, ◌==◌, ltb, ◌=ℕ◌, is_some, if◌then◌else◌, trim_space, Result,
}
use starfighter_workflow.Sql.Rows.{count, update, where_rows}
use starfighter_workflow.Sql.Select.{order_by}
use starfighter_workflow.Db.{Db, RequestRow, is_known, has_machine}
use starfighter_workflow.Db.Exec.{Prog, raise, ◌>>=◌, ◌>>◌, now, commit_if, statement, query}
use starfighter_workflow.Repair.States.{
  Status, status_received, status_in_repair, status_awaiting_parts, valid_status, is_terminal,
  can_transition,
}

unfoldable pub get : ℤ → Prog Error Request
unfolding or_not_found
get id = do found ← query storage (select_request id); or_not_found found

-- the values of the INSERT of `Create`, with the defaults of the schema
abbrev pub new_request : CreateInput → ℤ → ℕ → ℤ → RequestRow
new_request input created_by t id = record {
  id = id;
  machine_id = input.machine_id;
  problem_summary = input.problem_summary;
  problem_detail = trim_space input.problem_detail;
  status = status_received;
  priority = input.priority;
  assigned_to = none;
  created_by = some created_by;
  created_at = t;
  updated_at = t;
  closed_at = none;
}

-- The INSERT of `Create`. The foreign keys and the CHECK on `priority` can refuse it.
unfoldable pub insert_request : CreateInput → ℤ → ℕ → Db → Result Error ℤ × Db
insert_request input created_by t d =
    let id = pos (suc d.request_seq) in
    commit_if
      ((has_machine d input.machine_id && is_known d (some created_by))
        && valid_priority input.priority)
      storage id
      (record d {
        request_seq = suc d.request_seq;
        requests = d.requests ++ new_request input created_by t id ∷ [];
      })
      d

-- `Create`, from the test of the priority on
pub create_checked : CreateInput → ℤ → Prog Error Request
create_checked input created_by =
    if valid_priority input.priority
    then (do t ← now; id ← statement storage (insert_request input created_by t); get id)
    else raise invalid_priority

pub create : CreateInput → ℤ → Prog Error Request
unfolding create_checked
create input created_by =
    let summary = trim_space input.problem_summary in
    if not (is_positive input.machine_id) || summary == ""
    then raise validation
    else create_checked
        (record input {
          problem_summary = summary;
          priority = if input.priority == "" then "normal" else input.priority;
        })
        created_by

-- the WHERE clause that `List` builds
unfoldable pub matches_filter : ListFilter → RequestRow → Bool
matches_filter f r =
    (f.status == "" || r.status == f.status)
    && elim f.assigned_to [
      | none ↦ true
      | some u ↦ elim r.assigned_to [ none ↦ false | some owner ↦ owner =ℤ u ]
    ]
    && (not f.open_only || not (is_some r.closed_at))

-- ORDER BY r.updated_at DESC, r.id DESC
abbrev pub newest_first : Request → Request → Bool
newest_first a b = ltb b.updated_at a.updated_at || (a.updated_at =ℕ b.updated_at && b.id <ℤ a.id)

pub select_filtered : ListFilter → Db → List Request
select_filtered f d = order_by newest_first (join_all d (where_rows (matches_filter f) d.requests))

unfoldable pub list : ListFilter → Prog Error (List Request)
list f = query storage (select_filtered f)

-- UPDATE repair_requests SET f WHERE p, where `f` makes `owner` the owner if it is given: the
-- foreign key refuses an owner that is no user. Returns the affected rows.
unfoldable pub update_requests :
    (RequestRow → Bool) → (RequestRow → RequestRow) → Option ℤ → Db → Result Error ℕ × Db
update_requests p f owner d =
    let hits = count p d.requests in
    commit_if (hits =ℕ 0 || is_known d owner) storage hits
      (record d { requests = update p f d.requests }) d

abbrev pub set_claimed : ℤ → ℕ → RequestRow → RequestRow
set_claimed actor t r = record r {
  status = status_in_repair;
  assigned_to = some actor;
  updated_at = t;
}

pub claim : ℤ → ℤ → Prog Error Request
claim id actor = do
  t ← now
  n ← statement storage (
      update_requests (λ r. has_id id r && r.status == status_received) (set_claimed actor t)
        (some actor))
  if n =ℕ 0 then (do get id; raise claim_failed) else get id

abbrev pub is_owned : Status → Bool
is_owned s = s == status_in_repair || s == status_awaiting_parts

abbrev pub set_owner : ℤ → ℕ → RequestRow → RequestRow
set_owner actor t r = record r { assigned_to = some actor; updated_at = t }

pub take_over : ℤ → ℤ → Prog Error Request
take_over id actor = do
  t ← now
  n ←
      statement storage
        (update_requests (λ r. has_id id r && is_owned r.status) (set_owner actor t) (some actor))
  if n =ℕ 0 then (do get id; raise not_ownable) else get id

abbrev pub set_status : Status → ℕ → RequestRow → RequestRow
set_status to t r = record r {
  status = to;
  updated_at = t;
  closed_at = if is_terminal to then some t else none;
}

-- `Transition`, from the read of the current row on
pub move_request : ℤ → Status → Request → Prog Error Request
move_request id to cur =
    if cur.status == status_received && to == status_in_repair
    then raise use_claim
    else if not (can_transition cur.status to)
    then raise (bad_transition cur.status to)
    else do t ← now; statement storage (update_requests (has_id id) (set_status to t) none); get id

pub transition : ℤ → Status → Prog Error Request
unfolding move_request
transition id to =
    if not (valid_status to) then raise invalid_status else do cur ← get id; move_request id to cur

abbrev pub set_priority_of : String → ℕ → RequestRow → RequestRow
set_priority_of priority t r = record r { priority = priority; updated_at = t }

pub set_priority : ℤ → String → Prog Error Request
set_priority id priority = if not (valid_priority priority) then raise invalid_priority else do
  get id
  t ← now
  statement storage (update_requests (has_id id) (set_priority_of priority t) none)
  get id
