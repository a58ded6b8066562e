-- ===== src/Repair/Tables.antt =====
-- repair.go: its types, and what it selects.
use starfighter_workflow.Common.{
  ℕ, ℤ, ◌=ℤ◌, String, Bool, true, false, Option, none, some, List, [], ◌∷◌, map_get,
}
use starfighter_workflow.Sql.Rows.{first, where_rows}
use starfighter_workflow.Db.{Db, RequestRow, MachineRow, is_user, is_machine}
use starfighter_workflow.Db.Exec.{Prog, ret, raise}
use starfighter_workflow.Repair.States.{Status}

-- The package's errors; `storage` is any other error, a failed statement wrapped by the method.
pub data Error : Type 0 where
  not_found invalid_status invalid_priority validation claim_failed not_ownable use_claim : Error
  bad_transition : Status → Status → Error
  storage : Error

unfoldable pub valid_priorities : List (String × Bool)
valid_priorities = ("low", true) ∷ ("normal", true) ∷ ("high", true) ∷ ("urgent", true) ∷ []

unfoldable pub valid_priority : String → Bool
unfolding valid_priorities
valid_priority p = map_get false p valid_priorities

-- `Request`, a row joined with its machine's name and its owner's username
pub record Request : Type 0 where
  pub row : RequestRow
  pub open row use *
  pub machine_name : String
  pub assigned_username : Option String

pub record CreateInput : Type 0 where
  pub machine_id : ℤ
  pub problem_summary : String
  pub problem_detail : String
  pub priority : String

pub record ListFilter : Type 0 where
  pub status : String
  pub assigned_to : Option ℤ
  pub open_only : Bool

abbrev pub has_id : ℤ → RequestRow → Bool
has_id id r = r.id =ℤ id

abbrev pub username_of : Db → Option ℤ → Option String
username_of d none = none
username_of d (some id) = elim (first (is_user id) d.users) [
  | none ↦ none
  | some u ↦ some u.username
]

-- a row of `selectCols`, as it comes from SQLite; NULL is `none`
pub record Columns : Type 0 where
  pub id : ℤ
  pub machine_id : ℤ
  pub machine_name : String
  pub problem_summary : String
  pub problem_detail : String
  pub status : String
  pub priority : String
  pub assigned_to : Option ℤ
  pub assigned_username : Option String
  pub created_by : Option ℤ
  pub created_at : ℕ
  pub updated_at : ℕ
  pub closed_at : Option ℕ

-- LEFT JOIN users
abbrev pub select_cols : Db → RequestRow → MachineRow → Columns
select_cols d r m = record {
  id = r.id;
  machine_id = m.id;
  machine_name = m.name;
  problem_summary = r.problem_summary;
  problem_detail = r.problem_detail;
  status = r.status;
  priority = r.priority;
  assigned_to = r.assigned_to;
  assigned_username = username_of d r.assigned_to;
  created_by = r.created_by;
  created_at = r.created_at;
  updated_at = r.updated_at;
  closed_at = r.closed_at;
}

abbrev pub scan_request : Columns → Request
scan_request c = record {
  row = record {
    id = c.id;
    machine_id = c.machine_id;
    problem_summary = c.problem_summary;
    problem_detail = c.problem_detail;
    status = c.status;
    priority = c.priority;
    assigned_to = c.assigned_to;
    created_by = c.created_by;
    created_at = c.created_at;
    updated_at = c.updated_at;
    closed_at = c.closed_at;
  };
  machine_name = c.machine_name;
  assigned_username = c.assigned_username;
}

-- JOIN machines, on one row
unfoldable pub join : Db → RequestRow → Option Request
join d r = elim (first (is_machine r.machine_id) d.machines) [
  | none ↦ none
  | some m ↦ some (scan_request (select_cols d r m))
]

unfoldable pub join_all : Db → List RequestRow → List Request
unfolding join
join_all d [] = []
join_all d (r ∷ rs) = elim (join d r) [ none ↦ join_all d rs | some q ↦ q ∷ join_all d rs ]

-- the row of a query for one request
abbrev pub single : List Request → Option Request
single [] = none
single (q ∷ qs) = some q

unfoldable pub select_request : ℤ → Db → Option Request
unfolding join_all
select_request id d = single (join_all d (where_rows (has_id id) d.requests))

unfoldable pub or_not_found : Option Request → Prog Error Request
or_not_found none = raise not_found
or_not_found (some r) = ret r
