-- ===== src/Daemon/Deploys.antt =====
-- The post-deploy gate of main.go against its contract, and its next boot.
use starfighter_workflow.Common.{
  is_some, ◌++◌, Bool, ℕ, suc, String, true, Option, none, some, List, [], ◌∷◌, ◌≡◌, refl, ap, ◌∙◌,
  sym, ◌==◌, eq_iff, ok, if◌then◌else◌, Bool-cases, Option-cases, inl, inr,
}
use starfighter_workflow.Sql.Rows.{
  update, first, delete, where_rows, first-update, first-append, first-holds,
}
use starfighter_workflow.Db.{Db, NodeStateRow}
use starfighter_workflow.Db.Exec.{World, IsHealthy, run, outcome, elapse, inspect}
use starfighter_workflow.Auth.{wipe_all_sessions, delete_sessions}
use starfighter_workflow.Daemon.{
  has_key, value_of, get, entry, upsert, set, ver_state_key, record_version, after_read,
  post_deploy,
}

-- the record of the version that booted last
abbrev is_version : NodeStateRow → Bool
is_version n = n.key == "daemon_version_last_seen"

abbrev value : Option NodeStateRow → Option String
value none = none
value (some n) = some n.value

abbrev version_of : Db → Option String
version_of d = value (first is_version d.node_state)

abbrev stamped : String → ℕ → NodeStateRow
stamped current t = record { key = "daemon_version_last_seen"; value = current; updated_at = t }

-- a first version is added to the table, a later one replaces it
abbrev noted : String → ℕ → Option String → List NodeStateRow → List NodeStateRow
noted current t none rows = rows ++ stamped current t ∷ []
noted current t (some prev) rows = update is_version (λ n. stamped current t) rows

abbrev recorded : String → ℕ → Db → Db
recorded current t d = record d { node_state = noted current t (version_of d) d.node_state }

upsert-recorded :
    (current : String) (t : ℕ) (d : Db)
    → (upsert ver_state_key current t d).1 ≡ recorded current t d
unfolding upsert
upsert-recorded current t d = by_row (first is_version d.node_state)
  where
    written : Option NodeStateRow → Db
    written row = record d {
      node_state =
          if is_some row
          then update is_version (λ n. stamped current t) d.node_state
          else d.node_state ++ stamped current t ∷ [];
    }

    by_row :
        (row : Option NodeStateRow)
        → written row ≡ record d { node_state = noted current t (value row) d.node_state }
    by_row none = refl
    by_row (some n) = refl

value_of-version_of : (d : Db) → value_of ver_state_key d ≡ version_of d
unfolding value_of
value_of-version_of d = by_row (first is_version d.node_state)
  where
    by_row :
        (row : Option NodeStateRow) → elim row [ none ↦ none | some n ↦ some n.value ] ≡ value row
    by_row none = refl
    by_row (some n) = refl

abbrev deployed : String → ℕ → ℕ → Db → Option String → Db
deployed current first_time later d none = recorded current first_time d
deployed current first_time later d (some prev) =
    if prev == current then d else recorded current later (record d { sessions = [] })

-- The gate's contract: the first boot records the version, a boot of the same version changes
-- nothing, and a boot of another version ends every session and records it.
pub deploy_spec : String → (first_time later : ℕ) → Db → Db
deploy_spec current first_time later d = deployed current first_time later d (version_of d)

all_gone : {A : Type 0} (xs : List A) → delete (λ x. true) xs ≡ []
unfolding delete where_rows
all_gone [] = refl
all_gone (x ∷ xs) = all_gone xs

record_version-recorded :
    (current : String) (w : World)
    → IsHealthy w
    → outcome (record_version current) w ≡ (ok tt, recorded current (w.clock w.tick) w.db)
unfolding record_version set upsert
record_version-recorded current w healthy =
    rw (healthy (suc w.tick), run)
      (ap (λ d. (ok tt, d)) (upsert-recorded current (w.clock w.tick) w.db))

wipe-recorded :
    (current : String) (w : World)
    → IsHealthy w
    → outcome (inspect wipe_all_sessions (λ r. record_version current)) w
      ≡ (ok tt, recorded current (w.clock (suc w.tick)) (record w.db { sessions = [] }))
unfolding wipe_all_sessions delete_sessions
wipe-recorded current w healthy =
    rw (healthy w.tick, run)
      (rw all_gone (
        record_version-recorded current (elapse (record w { db = record w.db { sessions = [] } }))
          healthy))

after_read-deployed :
    (current : String) (w : World) (seen : Option String)
    → IsHealthy w
    → outcome (after_read current (ok seen)) w
      ≡ (ok tt, deployed current (w.clock w.tick) (w.clock (suc w.tick)) w.db seen)
unfolding after_read
after_read-deployed current w none healthy = record_version-recorded current w healthy
after_read-deployed current w (some prev) healthy = elim (Bool-cases (prev == current)) [
  | inl same ↦ rw same
  | inr other ↦ rw other (wipe-recorded current w healthy)
]

-- With no failing statement and no interruption the gate is `deploy_spec`: the first boot adds a record
-- of the version, a boot of the same version changes nothing, and a boot of another version ends every
-- session and puts the new version and the time in place of the record.
pub post_deploy-deploy_spec :
    (current : String) (w : World)
    → IsHealthy w
    → outcome (post_deploy current) w
      ≡ (ok tt, deploy_spec current (w.clock (suc w.tick)) (w.clock (suc (suc w.tick))) w.db)
unfolding post_deploy get deploy_spec value_of
post_deploy-deploy_spec current w healthy =
    rw (healthy w.tick, run) (after_read-deployed current (elapse w) (version_of w.db) healthy)

key_same : (key : String) → (key == key) ≡ true
key_same key = (eq_iff key key).1 refl

value_of-found :
    (key : String) (d : Db) {n : NodeStateRow}
    → first (has_key key) d.node_state ≡ some n
    → value_of key d ≡ some n.value
unfolding value_of
value_of-found key d found = rw (found, value_of)

first-upsert :
    (key value : String) (t : ℕ) (d : Db)
    → first (has_key key) (upsert key value t d).1.node_state ≡ some (entry key value t)
unfolding upsert
first-upsert key value t d = elim (Option-cases (first (has_key key) d.node_state)) [
  | inl missing ↦
      rw missing
        (first-append (has_key key) d.node_state (entry key value t ∷ []) missing ∙ first-entry)
  | inr (n, found) ↦ rw found (
      first-update (has_key key) (has_key key) (λ x. entry key value t) d.node_state
        (λ x h. key_same key ∙ sym h)
      ∙ (rw (found, first-holds (has_key key) d.node_state found)))
]
  where
    first-entry : first (has_key key) (entry key value t ∷ []) ≡ some (entry key value t)
    first-entry = unfold first in rw (key_same key)

upsert-value_of :
    (key value : String) (t : ℕ) (d : Db) → value_of key (upsert key value t d).1 ≡ some value
upsert-value_of key value t d =
    value_of-found key (upsert key value t d).1 (first-upsert key value t d)

recorded-version_of :
    (current : String) (t : ℕ) (d : Db) → version_of (recorded current t d) ≡ some current
unfolding value_of
recorded-version_of current t d =
    ap version_of (sym (upsert-recorded current t d))
    ∙ sym (value_of-version_of (upsert ver_state_key current t d).1)
    ∙ upsert-value_of ver_state_key current t d

module _ (current : String) (first_time later : ℕ) (d : Db) where
  deployed-version_of :
      (seen : Option String)
      → version_of d ≡ seen
      → version_of (deployed current first_time later d seen) ≡ some current
  deployed-version_of none e = recorded-version_of current first_time d
  deployed-version_of (some prev) e = elim (Bool-cases (prev == current)) [
    | inl same ↦ rw same (e ∙ ap some ((eq_iff prev current).0 same))
    | inr other ↦ rw other (recorded-version_of current later (record d { sessions = [] }))
  ]

  deploy_spec-version_of : version_of (deploy_spec current first_time later d) ≡ some current
  unfolding deploy_spec
  deploy_spec-version_of = deployed-version_of (version_of d) refl

-- With no failing statement, a second boot of the version that booted last changes nothing: the
-- sessions live on.
pub restart_keeps :
    (current : String) (w next : World)
    → IsHealthy w
    → IsHealthy next
    → next.db ≡ (outcome (post_deploy current) w).1
    → (outcome (post_deploy current) next).1 ≡ next.db
unfolding deploy_spec
restart_keeps current w next healthy next_healthy same =
    ap (λ o. o.1) (post_deploy-deploy_spec current next next_healthy)
    ∙ (rw (seen, key_same current))
  where
    seen : version_of next.db ≡ some current
    seen =
        ap version_of (same ∙ ap (λ o. o.1) (post_deploy-deploy_spec current w healthy))
        ∙ deploy_spec-version_of current (w.clock (suc w.tick)) (w.clock (suc (suc w.tick))) w.db
