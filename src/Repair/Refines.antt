-- ===== src/Repair/Refines.antt =====
-- `Claim` and `TakeOver` of repair.go, which write first, uninterrupted.
use starfighter_workflow.Common.{
  ℕ, ◌+◌, ◌≤◌, ℤ, Bool, true, false, ◌&&◌, ◌||◌, Option, none, some, ◌≡◌, refl, sym, ap, ◌∙◌, ◌==◌,
  ◌=ℕ◌, arith, Result, ok, err, Bool-cases, Option-cases, inl, inr, if◌then◌else◌,
}
use starfighter_workflow.Sql.Rows.{
  count, update, count-first-none, count-not_found, count-first-some, update-none, update_unique,
}
use starfighter_workflow.Db.{Db, RequestRow, is_known}
use starfighter_workflow.Db.Exec.{
  World, Prog, raise, ◌>>=◌, ◌>>◌, elapse, statement, IsHealthy, outcome, run-commit_if,
}
use starfighter_workflow.Repair.States.{status_received}
use starfighter_workflow.Repair.Lifecycle.{IsSound}
use starfighter_workflow.Repair.Spec.{
  row_of, view, store, on_row, on_row-none, on_row-some, decide_claim, decide_take_over,
}
use starfighter_workflow.Repair.{
  Error, storage, claim_failed, not_ownable, is_owned, set_owner, take_over, not_found, Request,
  has_id, get, update_requests, set_claimed, claim,
}
use starfighter_workflow.Repair.Reads.{get_then-some, get_then-none, linked_row, get-store}

or_true : (b : Bool) → (b || true) ≡ true
or_true b = ground arith

-- an update of one request, guarded by a test of its row
module _ (id : ℤ) (p : RequestRow → Bool) (f : RequestRow → RequestRow) (owner : Option ℤ)
    (e : Error) (w : World) (healthy : IsHealthy w) (sound : IsSound w.db)
    (known : is_known w.db owner ≡ true) (same : (r : RequestRow) → (f r).id ≡ r.id)
    (machine : (r : RequestRow) → (f r).machine_id ≡ r.machine_id) where
  abbrev guarded : RequestRow → Bool
  guarded r = has_id id r && p r

  abbrev rest : ℕ → Prog Error Request
  rest n = if n =ℕ 0 then (get id >> raise e) else get id

  abbrev after : Db → Db
  after d = record d { requests = update guarded f d.requests }

  update_then :
      outcome (statement storage (update_requests guarded f owner) >>= rest) w
      ≡ outcome (rest (count guarded w.db.requests)) (elapse (record w { db = after w.db }))
  unfolding update_requests
  update_then =
      ap (λ (r : Result Error Request × World). (r.0, r.1.db))
        (run-commit_if storage w healthy rest
          (λ d. (count guarded d.requests =ℕ 0) || is_known d owner) (λ d. count guarded d.requests)
          after (rw known (or_true (count guarded w.db.requests =ℕ 0))))

  unique : count (has_id id) w.db.requests ≤ 1
  unique = sound.keys.unique id

  abbrev decide : RequestRow → Result Error RequestRow
  decide r = if p r then ok (f r) else err e

  abbrev project : Result Error Request × World → Result Error Request × Db
  project (r, v) = (r, v.db)

  guarded-none :
      row_of id w.db ≡ none
      → outcome (rest (count guarded w.db.requests)) (elapse (record w { db = after w.db }))
        ≡ (err not_found, w.db)
  guarded-none h =
      rw
        (
          count-first-none (has_id id) p w.db.requests h,
          update-none (has_id id) p f w.db.requests (count-not_found (has_id id) w.db.requests h),
        )
        (ap project (get_then-none id (elapse w) healthy unique (λ _. raise e) h))

  guarded-refused :
      {r : RequestRow}
      → row_of id w.db ≡ some r
      → p r ≡ false
      → outcome (rest (count guarded w.db.requests)) (elapse (record w { db = after w.db }))
        ≡ (err e, w.db)
  guarded-refused {r} h no_p =
      rw
        (
          count-first-some (has_id id) p w.db.requests unique h
              ∙ ap (λ b. if b then ◌+◌ 0 1 else 0) no_p,
          update_unique (has_id id) p f w.db.requests unique h,
          no_p,
        )
        (ap project (
          get_then-some id (elapse w) healthy unique (λ _. raise e) h
            (linked_row id w.db sound h r refl refl)))

  guarded-done :
      {r : RequestRow}
      → row_of id w.db ≡ some r
      → p r ≡ true
      → outcome (rest (count guarded w.db.requests)) (elapse (record w { db = after w.db }))
        ≡ (ok (view w.db (f r)), store id (f r) w.db)
  guarded-done {r} h yes_p =
      rw
        (
          count-first-some (has_id id) p w.db.requests unique h,
          update_unique (has_id id) p f w.db.requests unique h,
          yes_p,
        )
        (get-store id w.db sound h (f r) (same r) (machine r) (elapse w) healthy)

  guarded-on_row :
      outcome (statement storage (update_requests guarded f owner) >>= rest) w
      ≡ on_row id decide w.db
  guarded-on_row = update_then ∙ elim (Option-cases (row_of id w.db)) [
    | inl missing ↦ guarded-none missing ∙ sym (on_row-none id decide w.db missing)
    | inr (r, h) ↦ elim (Bool-cases (p r)) [
      | inl yes_p ↦ guarded-done h yes_p ∙ sym (on_row-some id decide w.db h ∙ (rw yes_p))
      | inr no_p ↦ guarded-refused h no_p ∙ sym (on_row-some id decide w.db h ∙ (rw no_p))
    ]
  ]

module _ (id actor : ℤ) (w : World) (healthy : IsHealthy w) (sound : IsSound w.db)
    (known : is_known w.db (some actor) ≡ true) where
  -- With no failing statement and no interruption, in a sound database and for an actor who is a
  -- user, `Claim` is `decide_claim` on the one row: a request that does not exist is not found, one
  -- that is not received is refused without a change, and a received one goes to the actor in
  -- repair and is returned.
  pub claim-on_row :
      outcome (claim id actor) w ≡ on_row id (decide_claim actor (w.clock w.tick)) w.db
  unfolding claim
  claim-on_row =
      guarded-on_row id (λ r. r.status == status_received) (set_claimed actor (w.clock w.tick))
        (some actor) claim_failed (elapse w) healthy sound known (λ r. refl) (λ r. refl)

  -- With no failing statement and no interruption, in a sound database and for an actor who is a
  -- user, `TakeOver` is `decide_take_over` on the one row: a request that does not exist is not
  -- found, one that is neither in repair nor awaiting parts is refused without a change, and any
  -- other goes to the actor in the status it has.
  pub take_over-on_row :
      outcome (take_over id actor) w ≡ on_row id (decide_take_over actor (w.clock w.tick)) w.db
  unfolding take_over
  take_over-on_row =
      guarded-on_row id (λ r. is_owned r.status) (set_owner actor (w.clock w.tick)) (some actor)
        not_ownable (elapse w) healthy sound known (λ r. refl) (λ r. refl)
