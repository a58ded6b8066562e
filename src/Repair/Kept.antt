-- ===== src/Repair/Kept.antt =====
-- What an invariant of the database needs so that every operation of repair.go keeps it: the INSERT
-- and each UPDATE of the package keep it. An UPDATE changes only rows that pass its test, and each
-- that it changes keeps its id and its machine, and stays sound.
use starfighter_workflow.Common.{ℕ, ℤ, Bool, true, Option, ◌≡◌}
use starfighter_workflow.Db.{Db, RequestRow}
use starfighter_workflow.Repair.{CreateInput, insert_request, update_requests}
use starfighter_workflow.Repair.Lifecycle.{IsSoundRow}

pub record IsKept (P : Db → Type 0) : Type 0 where
  pub insert_request-keeps :
      (input : CreateInput) (by : ℤ) (t : ℕ) (d : Db) → P d → P (insert_request input by t d).1
  pub update_requests-keeps :
      (p : RequestRow → Bool) (f : RequestRow → RequestRow) (owner : Option ℤ)
      → ((r : RequestRow) → (f r).id ≡ r.id)
      → ((r : RequestRow) → (f r).machine_id ≡ r.machine_id)
      → ((r : RequestRow) → p r ≡ true → IsSoundRow r → IsSoundRow (f r))
      → (d : Db) → P d
      → P (update_requests p f owner d).1
