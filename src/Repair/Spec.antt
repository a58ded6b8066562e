-- ===== src/Repair/Spec.antt =====
-- What an operation on one request promises: it finds the row, decides by the row alone, and
-- stores and returns the new row. Times and the caller's id are arguments.
use starfighter_workflow.Common.{
  ◌≡◌, ℕ, ℤ, String, Bool, true, false, map, map_get, refl, Bool-cases, inl, inr, ◌&&◌, ◌||◌, List,
  [], ◌∷◌, any, Option, none, some, ◌==◌, if◌then◌else◌, Result, ok, err,
}
use starfighter_workflow.Sql.Rows.{first, update}
use starfighter_workflow.Db.{Db, RequestRow, is_machine}
use starfighter_workflow.Repair.States.{Status}
use starfighter_workflow.Repair.{valid_priority, valid_priorities}
use starfighter_workflow.Repair.{
  Error, not_found, claim_failed, not_ownable, use_claim, bad_transition, Request, has_id,
  username_of,
}

abbrev pub row_of : ℤ → Db → Option RequestRow
row_of id d = first (has_id id) d.requests

abbrev pub machine_name_of : Db → ℤ → String
machine_name_of d id = elim (first (is_machine id) d.machines) [ none ↦ "" | some m ↦ m.name ]

-- a row as clients see it
abbrev pub view : Db → RequestRow → Request
view d r = record {
  row = r;
  machine_name = machine_name_of d r.machine_id;
  assigned_username = username_of d r.assigned_to;
}

abbrev pub store : ℤ → RequestRow → Db → Db
store id r d = record d { requests = update (has_id id) (λ _. r) d.requests }

abbrev pub settle : ℤ → Db → Result Error RequestRow → Result Error Request × Db
settle id d (ok r) = (ok (view d r), store id r d)
settle id d (err e) = (err e, d)

-- the operation on request `id` that `decide` describes
pub on_row : ℤ → (RequestRow → Result Error RequestRow) → Db → Result Error Request × Db
on_row id decide d = elim (row_of id d) [
  | none ↦ (err not_found, d)
  | some r ↦ settle id d (decide r)
]

module _ (id : ℤ) (decide : RequestRow → Result Error RequestRow) (d : Db) where
  pub on_row-none : row_of id d ≡ none → on_row id decide d ≡ (err not_found, d)
  unfolding on_row
  on_row-none h = rw (h, on_row)

  pub on_row-some :
      {r : RequestRow} → row_of id d ≡ some r → on_row id decide d ≡ settle id d (decide r)
  unfolding on_row
  on_row-some h = rw (h, on_row)

-- the rows as the operations leave them, and the moves of the workflow
abbrev pub in_repair_by : ℤ → ℕ → RequestRow → RequestRow
in_repair_by actor t r = record r { status = "in_repair"; assigned_to = some actor; updated_at = t }

abbrev pub owned_by : ℤ → ℕ → RequestRow → RequestRow
owned_by actor t r = record r { assigned_to = some actor; updated_at = t }

abbrev pub closing_time : Status → ℕ → Option ℕ
closing_time to t = if to == "completed" || to == "cancelled" then some t else none

abbrev pub moved_to : Status → ℕ → RequestRow → RequestRow
moved_to to t r = record r { status = to; updated_at = t; closed_at = closing_time to t }

abbrev pub ranked : String → ℕ → RequestRow → RequestRow
ranked priority t r = record r { priority = priority; updated_at = t }

abbrev pub moves : List (Status × Status)
moves =
    ("received", "in_repair")
    ∷ ("received", "cancelled")
    ∷ ("in_repair", "awaiting_parts")
    ∷ ("in_repair", "completed")
    ∷ ("in_repair", "cancelled")
    ∷ ("awaiting_parts", "in_repair")
    ∷ ("awaiting_parts", "completed")
    ∷ ("awaiting_parts", "cancelled")
    ∷ []

abbrev pub is_status : Status → Bool
is_status to =
    any (λ s. s == to)
      ("received" ∷ "in_repair" ∷ "awaiting_parts" ∷ "completed" ∷ "cancelled" ∷ [])

abbrev pub is_priority : String → Bool
is_priority p = any (λ known. known == p) ("low" ∷ "normal" ∷ "high" ∷ "urgent" ∷ [])

map_get-any :
    (k : String) (keys : List String)
    → map_get false k (map (λ j. (j, true)) keys) ≡ any (λ j. j == k) keys
map_get-any k [] = refl
map_get-any k (j ∷ keys) = elim (Bool-cases (j == k)) [
  | inl here ↦ rw here refl
  | inr other ↦ rw other (map_get-any k keys)
]

pub valid_priority-is_priority : (p : String) → valid_priority p ≡ is_priority p
unfolding valid_priority valid_priorities
valid_priority-is_priority p = map_get-any p ("low" ∷ "normal" ∷ "high" ∷ "urgent" ∷ [])

abbrev pub is_move : Status → Status → Bool
is_move from to = any (λ m. m.0 == from && m.1 == to) moves

abbrev pub decide_claim : ℤ → ℕ → RequestRow → Result Error RequestRow
decide_claim actor t r =
    if r.status == "received" then ok (in_repair_by actor t r) else err claim_failed

abbrev pub decide_take_over : ℤ → ℕ → RequestRow → Result Error RequestRow
decide_take_over actor t r =
    if r.status == "in_repair" || r.status == "awaiting_parts"
    then ok (owned_by actor t r)
    else err not_ownable

abbrev pub decide_transition : Status → ℕ → RequestRow → Result Error RequestRow
decide_transition to t r =
    if r.status == "received" && to == "in_repair"
    then err use_claim
    else if is_move r.status to
    then ok (moved_to to t r)
    else err (bad_transition r.status to)

abbrev pub decide_priority : String → ℕ → RequestRow → Result Error RequestRow
decide_priority priority t r = ok (ranked priority t r)
