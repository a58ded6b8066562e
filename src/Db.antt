-- ===== src/Db.antt =====
-- internal/db: the tables of migrations/0001_init.sql as lists of rows.
pub mod Exec
pub mod Takes
pub mod Keeps
pub mod Keys
pub mod Unique
pub mod Posts
pub mod Threads
pub mod Migrations
pub mod Progress
pub mod Spends
use starfighter_workflow.Common.{
  ℕ, ℤ, ◌=ℤ◌, String, Bool, true, Option, none, some, is_some, List, [],
}
use starfighter_workflow.Sql.Rows.{first}

-- `username` is UNIQUE COLLATE NOCASE; `role` has a CHECK; AUTOINCREMENT never reuses an id.
pub record UserRow : Type 0 where
  pub id : ℤ
  pub username : String
  pub password_hash : String
  pub role : String
  pub display_name : String
  pub created_at : ℕ
  pub last_login_at : Option ℕ

-- `token` is the key; `user_id` references users ON DELETE CASCADE.
pub record SessionRow : Type 0 where
  pub token : String
  pub user_id : ℤ
  pub created_at : ℕ
  pub expires_at : ℕ

pub record NodeStateRow : Type 0 where
  pub key : String
  pub value : String
  pub updated_at : ℕ

-- `name` is UNIQUE COLLATE NOCASE; `created_by` references users ON DELETE SET NULL.
pub record MachineRow : Type 0 where
  pub id : ℤ
  pub name : String
  pub created_by : Option ℤ
  pub created_at : ℕ

-- `machine_id` references machines ON DELETE RESTRICT; `assigned_to` and `created_by` reference
-- users ON DELETE SET NULL. `status` is free text.
pub record RequestRow : Type 0 where
  pub id : ℤ
  pub machine_id : ℤ
  pub problem_summary : String
  pub problem_detail : String
  pub status : String
  pub priority : String
  pub assigned_to : Option ℤ
  pub created_by : Option ℤ
  pub created_at : ℕ
  pub updated_at : ℕ
  pub closed_at : Option ℕ

-- The database. Each `_seq` is the largest id that the AUTOINCREMENT key has handed out.
pub record Db : Type 0 where
  pub users : List UserRow
  pub sessions : List SessionRow
  pub node_state : List NodeStateRow
  pub machines : List MachineRow
  pub requests : List RequestRow
  pub user_seq : ℕ
  pub machine_seq : ℕ
  pub request_seq : ℕ

-- the state after the first migration
abbrev pub empty : Db
empty = record {
  users = [];
  sessions = [];
  node_state = [];
  machines = [];
  requests = [];
  user_seq = 0;
  machine_seq = 0;
  request_seq = 0;
}

abbrev pub is_user : ℤ → UserRow → Bool
is_user id u = u.id =ℤ id

abbrev pub is_machine : ℤ → MachineRow → Bool
is_machine id m = m.id =ℤ id

-- what a foreign key to users lets through: NULL, or the id of a user
abbrev pub is_known : Db → Option ℤ → Bool
is_known d none = true
is_known d (some id) = is_some (first (is_user id) d.users)

-- what a foreign key to machines lets through
abbrev pub has_machine : Db → ℤ → Bool
has_machine d id = is_some (first (is_machine id) d.machines)
