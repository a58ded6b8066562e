-- ===== src/Daemon.antt =====
-- cmd/sfworkflowd/main.go: the post-deploy gate that runs before the server starts, and
-- internal/nodestate/nodestate.go, the store of the version that it reads.
pub mod Deploys
pub mod Serving
pub mod Start
pub mod Stop
use starfighter_workflow.Common.{
  ℕ, String, Bool, not, Option, none, some, [], ◌∷◌, ◌++◌, ◌==◌, Result, ok, err, is_some,
  if◌then◌else◌,
}
use starfighter_workflow.Sql.Rows.{first, update}
use starfighter_workflow.Db.{Db, NodeStateRow}
use starfighter_workflow.Db.Exec.{Prog, ret, ◌>>=◌, ◌>>◌, inspect, now, statement, query}
use starfighter_workflow.Auth.{wipe_all_sessions}

abbrev pub has_key : String → NodeStateRow → Bool
has_key key n = n.key == key

-- SELECT value FROM node_state WHERE key = ?
unfoldable pub value_of : String → Db → Option String
value_of key d = elim (first (has_key key) d.node_state) [ none ↦ none | some n ↦ some n.value ]

-- `Get`; its `ok` is whether there is a value
pub get : String → Prog Unit (Option String)
get key = query tt (value_of key)

abbrev pub entry : String → String → ℕ → NodeStateRow
entry key value t = record { key = key; value = value; updated_at = t }

-- INSERT … ON CONFLICT(key) DO UPDATE
pub upsert : String → String → ℕ → Db → Result Unit Unit × Db
upsert key value t d = (
  ok tt,
  record d {
    node_state =
        if is_some (first (has_key key) d.node_state)
        then update (has_key key) (λ n. entry key value t) d.node_state
        else d.node_state ++ entry key value t ∷ [];
  },
)

pub set : String → String → Prog Unit Unit
set key value = do t ← now; statement tt (upsert key value t)

abbrev pub ver_state_key : String
ver_state_key = "daemon_version_last_seen"

-- the version is recorded, a failure only logged
pub record_version : String → Prog Unit Unit
record_version current = inspect (set ver_state_key current) (λ r. ret tt)

-- what `Get` gave, a failure only logged
pub after_read : String → Result Unit (Option String) → Prog Unit Unit
unfolding record_version
after_read current (err e) = ret tt
after_read current (ok none) = record_version current
after_read current (ok (some prev)) =
    if not (prev == current)
    then inspect wipe_all_sessions (λ r. record_version current)
    else ret tt

-- the gate, at the version `current` of the binary
pub post_deploy : String → Prog Unit Unit
unfolding after_read
post_deploy current = inspect (get ver_state_key) (after_read current)
