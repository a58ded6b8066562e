-- ===== src/Repair/Moves.antt =====
-- `Transition` and `SetPriority`, which read the request before they write.
use mathlib.Core.Bool.{false≢true}
use starfighter_workflow.Common.{
  ℕ, List, [], ◌∷◌, All, ◌▸◌, any, eq_iff, and_left, and_right, suc, ℤ, String, Bool, true, ◌&&◌,
  ◌||◌, none, some, ◌≡◌, refl, sym, ap, ◌∙◌, ◌==◌, ◌=ℕ◌, arith, Result, ok, err, Bool-cases,
  Option-cases, inl, inr, if◌then◌else◌,
}
use starfighter_workflow.Sql.Rows.{count, update, update-found}
use starfighter_workflow.Db.{Db, RequestRow}
use starfighter_workflow.Db.Exec.{
  World, Prog, ◌>>=◌, ◌>>◌, elapse, statement, IsHealthy, outcome, run-commit_if,
}
use starfighter_workflow.Repair.States.{
  Status, status_received, status_in_repair, valid_status, all_statuses, is_terminal,
  can_transition,
}
use starfighter_workflow.Repair.States.Stages
use starfighter_workflow.Repair.States.Stages.{Stage, ◌⟶◌, name, can_transition-Move}
use starfighter_workflow.Repair.Lifecycle.{IsSound}
use starfighter_workflow.Repair.Spec.{
  row_of, view, store, settle, on_row, on_row-none, on_row-some, decide_transition, decide_priority,
  moves, is_move, closing_time, is_status, is_priority, valid_priority-is_priority,
}
use starfighter_workflow.Repair.{
  Error, invalid_status, invalid_priority, storage, set_status, transition, move_request,
  set_priority_of, set_priority, Request, has_id, get, update_requests,
}
use starfighter_workflow.Repair.Reads.{get_then-some, get_then-none, linked_row, get-store}

is_terminal-closing_time :
    (to : Status) (t : ℕ) → (if is_terminal to then some t else none) ≡ closing_time to t
unfolding is_terminal
is_terminal-closing_time to t =
    rw (swapped "completed" to, swapped "cancelled" to)
      (elim (Bool-cases (to == "completed")) [
        | inl done ↦ rw done refl
        | inr going ↦ elim (Bool-cases (to == "cancelled")) [
          | inl dropped ↦ rw (going, dropped) refl
          | inr live ↦ rw (going, live) refl
        ]
      ])
  where
    swapped : (s u : String) → (s == u) ≡ (u == s)
    swapped s u = ground (arith, eq_iff s u, eq_iff u s)

edge-is_move : {a b : Stage} → a ⟶ b → is_move (name a) (name b) ≡ true
edge-is_move Stages.claim = refl
edge-is_move _ = refl

listed-can_transition :
    (from to : Status) (ms : List (Status × Status))
    → All (λ m. can_transition m.0 m.1 ≡ true) ms
    → any (λ m. m.0 == from && m.1 == to) ms ≡ true
    → can_transition from to ≡ true
listed-can_transition from to [] legal h = absurd (false≢true h)
listed-can_transition from to ((a, b) ∷ ms) (legal, rest) h =
    elim (Bool-cases (a == from && b == to)) [
      | inl hit ↦
          let same : a ≡ from = (eq_iff a from).0 (and_left _ _ hit) in
          let next : b ≡ to = (eq_iff b to).0 (and_right _ _ hit) in rw (← same, ← next) legal
      | inr miss ↦
          listed-can_transition from to ms rest
            (sym (ap (λ b. b || any (λ m. m.0 == from && m.1 == to) ms) miss) ∙ h)
    ]

-- `CanTransition` is the list of moves
can_transition-is_move : (from to : Status) → can_transition from to ≡ is_move from to
can_transition-is_move from to = elim (Bool-cases (can_transition from to)) [
  | inl legal ↦
      let m = can_transition-Move from to legal in
      legal ∙ (rw (m.from_name, m.to_name) (sym (edge-is_move m.edge)))
  | inr illegal ↦ elim (Bool-cases (is_move from to)) [
    | inl listed ↦ listed-can_transition from to moves legal_moves listed ∙ sym listed
    | inr other ↦ illegal ∙ sym other
  ]
]
  where
    legal_moves : All (λ m. can_transition m.0 m.1 ≡ true) moves
    legal_moves =
        unfold can_transition in refl ▸ refl ▸ refl ▸ refl ▸ refl ▸ refl ▸ refl ▸ refl ▸ tt

or_true : (b : Bool) → (b || true) ≡ true
or_true b = ground arith

-- an update of one request that its row was read for
module _ (id : ℤ) (f : RequestRow → RequestRow) (w : World) (healthy : IsHealthy w)
    (sound : IsSound w.db) (same : (r : RequestRow) → (f r).id ≡ r.id)
    (machine : (r : RequestRow) → (f r).machine_id ≡ r.machine_id) where
  abbrev stored : Db → Db
  stored d = record d { requests = update (has_id id) f d.requests }

  update-row :
      {r : RequestRow}
      → row_of id w.db ≡ some r
      → outcome (statement storage (update_requests (has_id id) f none) >> get id) w
        ≡ (ok (view w.db (f r)), store id (f r) w.db)
  unfolding update_requests
  update-row {r} h =
      ap (λ (v : Result Error Request × World). (v.0, v.1.db))
        (run-commit_if storage w healthy (λ _. get id)
          (λ d. (count (has_id id) d.requests =ℕ 0) || true) (λ d. count (has_id id) d.requests)
          stored (or_true (count (has_id id) w.db.requests =ℕ 0)))
      ∙ (rw (update-found (has_id id) f w.db.requests (sound.keys.unique id) h)
          (get-store id w.db sound h (f r) (same r) (machine r) (elapse w) healthy))

module _ (id : ℤ) (w : World) (healthy : IsHealthy w) (sound : IsSound w.db) where
  reread :
      (g : Request → Prog Error Request) {r : RequestRow}
      → row_of id w.db ≡ some r
      → outcome (get id >>= g) w ≡ outcome (g (view w.db r)) (elapse w)
  reread g {r} h =
      ap (λ (v : Result Error Request × World). (v.0, v.1.db))
        (get_then-some id w healthy (sound.keys.unique id) g h
          (linked_row id w.db sound h r refl refl))

  -- an operation that reads the request first, and acts on what it read
  read_then :
      (g : Request → Prog Error Request) (decide : RequestRow → Result Error RequestRow)
      → ((r : RequestRow)
          → row_of id w.db ≡ some r
          → outcome (g (view w.db r)) (elapse w) ≡ settle id w.db (decide r))
      → outcome (get id >>= g) w ≡ on_row id decide w.db
  read_then g decide acts = elim (Option-cases (row_of id w.db)) [
    | inl missing ↦
        ap (λ (v : Result Error Request × World). (v.0, v.1.db))
          (get_then-none id w healthy (sound.keys.unique id) g missing)
        ∙ sym (on_row-none id decide w.db missing)
    | inr (r, h) ↦ reread g h ∙ acts r h ∙ sym (on_row-some id decide w.db h)
  ]

  abbrev moved : Status → RequestRow → Result Error RequestRow
  moved to = decide_transition to (w.clock (suc w.tick))

  move_request-settle :
      (to : Status) {r : RequestRow}
      → row_of id w.db ≡ some r
      → outcome (move_request id to (view w.db r)) (elapse w) ≡ settle id w.db (moved to r)
  unfolding move_request
  move_request-settle to {r} h =
      elim (Bool-cases (r.status == status_received && to == status_in_repair)) [
        | inl claims ↦ rw claims
        | inr other ↦ elim (Bool-cases (is_move r.status to)) [
          | inl legal ↦
              rw (other, can_transition-is_move r.status to, legal)
                (update-row id (set_status to (w.clock (suc w.tick))) (elapse (elapse w)) healthy
                    sound (λ r. refl) (λ r. refl) h
                  ∙ (rw (is_terminal-closing_time to (w.clock (suc w.tick))) refl))
          | inr illegal ↦ rw (other, can_transition-is_move r.status to, illegal)
        ]
      ]

  -- With no failing statement and no interruption, in a sound database, `Transition` is
  -- `decide_transition` on the one row, which lists the moves and writes the new row out: it refuses
  -- a text that is no status, a request that does not exist, the claim edge and every move that is
  -- not listed, without a change, and makes every other move, with the new status, the time of the
  -- change, and `closed_at` set if the status is completed or cancelled and empty otherwise.
  pub transition-on_row :
      (to : Status)
      → outcome (transition id to) w
        ≡ (if is_status to then on_row id (moved to) w.db else (err invalid_status, w.db))
  unfolding transition valid_status all_statuses
  transition-on_row to = elim (Bool-cases (is_status to)) [
    | inl v ↦ rw v (read_then (move_request id to) (moved to) (λ r h. move_request-settle to h))
    | inr n ↦ rw n
  ]

  -- With no failing statement and no interruption, in a sound database, `SetPriority` refuses an
  -- unknown priority and a request that does not exist, without a change, and else stores the
  -- priority.
  pub set_priority-on_row :
      (priority : String)
      → outcome (set_priority id priority) w ≡ (
          if is_priority priority
          then on_row id (decide_priority priority (w.clock (suc w.tick))) w.db
          else (err invalid_priority, w.db))
  unfolding set_priority
  set_priority-on_row priority = elim (Bool-cases (is_priority priority)) [
    | inl v ↦
        rw (valid_priority-is_priority priority, v)
          (read_then _ _ λ r h.
            update-row id (set_priority_of priority (w.clock (suc w.tick))) (elapse (elapse w))
              healthy sound (λ r. refl) (λ r. refl) h)
    | inr n ↦ rw (valid_priority-is_priority priority, n)
  ]
