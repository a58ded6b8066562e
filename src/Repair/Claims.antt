-- ===== src/Repair/Claims.antt =====
-- `Claim` of repair.go by any number of users at the same time.
use mathlib.Core.List.{map}
use starfighter_workflow.Common.{
  ℕ, zero, suc, ◌+◌, ◌≤◌, ℤ, Bool, false, ◌&&◌, ◌||◌, Option, none, some, List, [], ◌∷◌, ◌≡◌, ◌==◌,
  ◌=ℕ◌, arith, ok, if◌then◌else◌,
}
use starfighter_workflow.Sql.Rows.{count, update, count-update_miss, count-and-le}
use starfighter_workflow.Db.{Db, RequestRow, is_known}
use starfighter_workflow.Db.Exec.{World, Prog, raise, ◌>>=◌, ◌>>◌, bind_assoc, statement}
use starfighter_workflow.Db.Threads.{interleave, winners}
use starfighter_workflow.Db.Spends.{
  Spends, returned, raised, stepped, Spends-statement, Spends-commit_if, Pool, nobody, joined,
  winners-interleave-le,
}
use starfighter_workflow.Repair.States.{status_received}
use starfighter_workflow.Repair.{
  Error, storage, not_found, claim_failed, Request, has_id, or_not_found, select_request, get,
  update_requests, set_claimed, claim,
}
use starfighter_workflow.Repair.Lifecycle.{IsSound}

abbrev is_open_for_claim : ℤ → RequestRow → Bool
is_open_for_claim id r = has_id id r && r.status == status_received

-- the requests with this id that are still unclaimed
abbrev pub unclaimed : ℤ → Db → ℕ
unclaimed id d = count (is_open_for_claim id) d.requests

module _ (id : ℤ) where
  or_not_found-Spends : (o : Option Request) → Spends (unclaimed id) 1 (or_not_found o)
  unfolding or_not_found
  or_not_found-Spends none = raised not_found
  or_not_found-Spends (some r) = returned r

  get-Spends : Spends (unclaimed id) 1 (get id)
  unfolding get
  get-Spends =
      Spends-statement _ storage (λ d. (ok (select_request id d), d)) or_not_found (λ d. 1)
        (λ d. omega arith) (λ d. or_not_found-Spends (select_request id d))

  loses-Spends :
      (o : Option Request)
      → Spends (unclaimed id) {A = Request} 0 (or_not_found o >> raise claim_failed)
  unfolding or_not_found
  loses-Spends none = raised not_found
  loses-Spends (some r) = raised claim_failed

  get_loses-Spends : Spends (unclaimed id) {A = Request} 0 (get id >> raise claim_failed)
  unfolding get
  get_loses-Spends = rw bind_assoc (
      Spends-statement _ storage (λ d. (ok (select_request id d), d))
        (λ o. or_not_found o >> raise claim_failed) (λ d. 0) (λ d. omega arith)
        (λ d. loses-Spends (select_request id d)))

  suc_ne_zero : (n : ℕ) → (suc n =ℕ 0) ≡ false
  suc_ne_zero n = ground arith

  claimed-closed :
      (actor : ℤ) (t : ℕ) (r : RequestRow) → is_open_for_claim id (set_claimed actor t r) ≡ false
  claimed-closed actor t r = ground arith

  module _ (actor : ℤ) (t : ℕ) where
    abbrev after_update : ℕ → Prog Error Request
    after_update n = if n =ℕ 0 then (get id >> raise claim_failed) else get id

    -- one token for a claim that changed the row
    abbrev taken : ℕ → ℕ
    taken zero = 0
    taken (suc n) = 1

    after_update-Spends : (n : ℕ) → Spends (unclaimed id) (taken n) (after_update n)
    after_update-Spends zero = get_loses-Spends
    after_update-Spends (suc n) = rw (suc_ne_zero n) get-Spends

    hits-taken : (n : ℕ) → taken n ≤ n
    hits-taken zero = omega arith
    hits-taken (suc n) = omega arith

    claimed : Db → Db
    claimed d = record d {
      requests = update (is_open_for_claim id) (set_claimed actor t) d.requests;
    }

    claimed-spends : (d : Db) → unclaimed id (claimed d) + taken (unclaimed id d) ≤ unclaimed id d
    unfolding claimed
    claimed-spends d = omega (
      arith,
      count-update_miss (is_open_for_claim id) (set_claimed actor t) d.requests
          (claimed-closed actor t),
      hits-taken (unclaimed id d),
    )

    timed-Spends : Spends (unclaimed id) 0 (
        statement storage
          (update_requests (is_open_for_claim id) (set_claimed actor t) (some actor))
        >>= after_update)
    unfolding update_requests claimed
    timed-Spends =
        Spends-commit_if (unclaimed id) storage
          (λ d. unclaimed id d =ℕ 0 || is_known d (some actor)) (unclaimed id) claimed after_update
          (λ d. taken (unclaimed id d)) claimed-spends (λ d. after_update-Spends (unclaimed id d))

  pub claim-Spends : (actor : ℤ) → Spends (unclaimed id) 0 (claim id actor)
  unfolding claim
  claim-Spends actor =
      stepped (λ w. 0) (λ w. omega arith) (λ w. timed-Spends actor (w.clock w.tick))

  claims-Pool : (actors : List ℤ) → Pool (unclaimed id) 0 (map (claim id) actors)
  claims-Pool [] = nobody
  claims-Pool (a ∷ actors) = joined (omega arith) (claim-Spends a) (claims-Pool actors)

  unclaimed-le : (d : Db) → IsSound d → unclaimed id d ≤ 1
  unclaimed-le d s = omega (
    arith,
    count-and-le (has_id id) (λ r. r.status == status_received) d.requests,
    s.keys.unique id,
  )

-- In a sound database any number of users claim one request at the same time: whatever the
-- schedule, and whichever statements fail, the claims that return it are at most the unclaimed
-- requests with its id, which are at most one.
pub claim_first_wins :
    (id : ℤ) (actors : List ℤ) (schedule : List ℕ) (w : World)
    → IsSound w.db
    → winners (interleave schedule (map (claim id) actors) w).0 ≤ unclaimed id w.db
      × unclaimed id w.db ≤ 1
claim_first_wins id actors schedule w s = (
  omega (arith, winners-interleave-le (unclaimed id) schedule w (claims-Pool id actors)),
  unclaimed-le id w.db s,
)
