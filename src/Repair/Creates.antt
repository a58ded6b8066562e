-- ===== src/Repair/Creates.antt =====
-- `Create` of repair.go, uninterrupted.
use starfighter_workflow.Common.{
  ℕ, suc, ℤ, pos, =ℤ_refl, is_positive, Bool, true, not, ◌&&◌, ◌||◌, none, some, [], ◌∷◌, ◌++◌, ◌≡◌,
  refl, ◌∙◌, ◌==◌, Result, ok, err, if◌then◌else◌, trim_space, Bool-cases, inl, inr, and_left,
}
use starfighter_workflow.Sql.Rows.{first, first_zero, first-append}
use starfighter_workflow.Db.{Db, RequestRow, is_known, has_machine}
use starfighter_workflow.Db.Exec.{World, IsHealthy, run, elapse, outcome, commit_if}
use starfighter_workflow.Db.Keys.{IsKeyed, IsKeyed-append, count-fresh}
use starfighter_workflow.Repair.{
  Error, validation, invalid_priority, storage, Request, CreateInput, has_id, insert_request,
  create_checked, create, get,
}
use starfighter_workflow.Repair.Lifecycle.{IsSound}
use starfighter_workflow.Repair.Spec.{row_of, view, is_priority, valid_priority-is_priority}
use starfighter_workflow.Repair.Reads.{get-some}

-- the foreign keys of the new row
abbrev pub is_insertable : CreateInput → ℤ → Db → Bool
is_insertable input by d = has_machine d input.machine_id && is_known d (some by)

-- the new row, unclaimed, with the next id
abbrev pub logged : CreateInput → ℤ → ℕ → Db → RequestRow
logged input by t d = record {
  id = pos (suc d.request_seq);
  machine_id = input.machine_id;
  problem_summary = input.problem_summary;
  problem_detail = trim_space input.problem_detail;
  status = "received";
  priority = input.priority;
  assigned_to = none;
  created_by = some by;
  created_at = t;
  updated_at = t;
  closed_at = none;
}

abbrev pub with_request : CreateInput → ℤ → ℕ → Db → Db
with_request input by t d = record d {
  request_seq = suc d.request_seq;
  requests = d.requests ++ logged input by t d ∷ [];
}

abbrev checked_spec : CreateInput → ℤ → ℕ → Db → Result Error Request × Db
checked_spec input by t d =
    if is_priority input.priority
    then (if is_insertable input by d
        then (
          ok (view (with_request input by t d) (logged input by t d)),
          with_request input by t d,
        )
        else (err storage, d))
    else (err invalid_priority, d)

abbrev cleaned : CreateInput → CreateInput
cleaned input = record input {
  problem_summary = trim_space input.problem_summary;
  priority = if input.priority == "" then "normal" else input.priority;
}

-- What `Create` promises: a machine and a summary that is not blank are needed, the priority must
-- be known, "normal" if none is given, and the machine and the user must exist; then there is one
-- more request, unclaimed and open, which is returned.
pub create_spec : CreateInput → ℤ → ℕ → Db → Result Error Request × Db
create_spec input by t d =
    if not (is_positive input.machine_id) || trim_space input.problem_summary == ""
    then (err validation, d)
    else checked_spec (cleaned input) by t d

module _ (input : CreateInput) (by : ℤ) (t : ℕ) (d : Db) (sound : IsSound d) where
  row_of-new :
      row_of (pos (suc d.request_seq)) (with_request input by t d) ≡ some (logged input by t d)
  row_of-new =
      first-append (has_id (pos (suc d.request_seq))) d.requests (logged input by t d ∷ []) (
        first_zero (has_id (pos (suc d.request_seq))) d.requests
          (count-fresh (λ r. r.id) d.request_seq d.requests sound.keys.issued))
      ∙ (unfold first in rw (=ℤ_refl (pos (suc d.request_seq))))

get-new :
    (input : CreateInput) (by : ℤ) (t : ℕ) (w : World)
    → IsHealthy w
    → (sound : IsSound w.db) → is_insertable input by w.db ≡ true
    → outcome
        (get (pos (suc w.db.request_seq)))
        (elapse (elapse (record w { db = with_request input by t w.db })))
      ≡ (
        ok (view (with_request input by t w.db) (logged input by t w.db)),
        with_request input by t w.db,
      )
get-new input by t w healthy sound allowed =
    get-some (pos (suc w.db.request_seq))
      (elapse (elapse (record w { db = with_request input by t w.db }))) healthy
      (keyed.unique (pos (suc w.db.request_seq))) (row_of-new input by t w.db sound)
      (and_left _ _ allowed)
  where
    keyed : IsKeyed (λ r. r.id) (suc w.db.request_seq) (with_request input by t w.db).requests
    keyed = IsKeyed-append _ _ w.db.requests (logged input by t w.db) sound.keys refl

module _ (by : ℤ) (w : World) (healthy : IsHealthy w) (sound : IsSound w.db) where
  abbrev at : ℕ
  at = w.clock w.tick

  create_checked-checked_spec :
      (input : CreateInput) → outcome (create_checked input by) w ≡ checked_spec input by at w.db
  unfolding create_checked insert_request commit_if
  create_checked-checked_spec input = elim (Bool-cases (is_priority input.priority)) [
    | inr unknown ↦ rw (valid_priority-is_priority input.priority, unknown)
    | inl priority ↦
        rw (valid_priority-is_priority input.priority, priority)
          (elim (Bool-cases (is_insertable input by w.db)) [
            | inr refused ↦ rw (healthy (suc w.tick), run) (rw refused)
            | inl allowed ↦
                rw (healthy (suc w.tick), run)
                  (rw allowed (get-new input by at w healthy sound allowed))
          ])
  ]

  -- With no failing statement and no interruption, in a sound database, `Create` is `create_spec`:
  -- a missing machine id, a blank summary, an unknown priority, and a machine or user that does not
  -- exist are refused without a change; else there is one more request, received, without an owner
  -- and open, with the trimmed texts, the priority, which is normal if none is given, and the next
  -- id, and it is returned.
  pub create-create_spec :
      (input : CreateInput) → outcome (create input by) w ≡ create_spec input by at w.db
  unfolding create create_spec
  create-create_spec input =
      elim (Bool-cases
        (not (is_positive input.machine_id) || trim_space input.problem_summary == "")) [
          | inl bad ↦ rw bad
          | inr good ↦ rw good (create_checked-checked_spec (cleaned input))
        ]
