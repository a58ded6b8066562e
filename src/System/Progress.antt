-- ===== src/System/Progress.antt =====
-- The calls of the three services come to their end.
use mathlib.Core.List.{map}
use starfighter_workflow.Common.{ℕ, ◌≤◌, ◌≡◌, ◌<◌, List, [], ◌∷◌, length, All}
use starfighter_workflow.Db.Exec.{World, Prog}
use starfighter_workflow.Db.Takes.{Takes, returns, raises, steps}
use starfighter_workflow.Db.Threads.{interleave, running}
use starfighter_workflow.Db.Progress.{turns, interleave-running}
use starfighter_workflow.Auth.{Bcrypt}
use starfighter_workflow.Auth.Steps as AuthSteps
use starfighter_workflow.Machines.Steps as MachinesSteps
use starfighter_workflow.Repair.Steps as RepairSteps
use starfighter_workflow.System.{
  Call, discard, perform, find_user, find_user_by_name, count_users, list_users, purge_expired,
  wipe_all_sessions, create_user, change_password, change_role, delete_user, login, lookup, logout,
  find_or_create_machine, find_machine, get_machine, search_machines, create_request, get_request,
  list_requests, claim, take_over, transition, set_priority,
}

Takes-discard : {E A : Type 0} {n : ℕ} {m : Prog E A} → Takes n m → Takes n (discard m)
Takes-discard (returns a) = returns tt
Takes-discard (raises e) = raises tt
Takes-discard (steps h) = steps (λ w. Takes-discard (h w))

-- Every call of the three services comes to its end after at most five atomic steps, whatever the
-- other callers do between the steps, whichever statements fail and whatever the clock and the
-- random source give.
pub perform-Takes : (bcrypt : Bcrypt) (c : Call) → Takes 5 (perform bcrypt c)
unfolding perform
perform-Takes b (find_user id) = Takes-discard (AuthSteps.find_by_id-Takes id)
perform-Takes b (find_user_by_name n) = Takes-discard (AuthSteps.find_by_username-Takes n)
perform-Takes b count_users = Takes-discard AuthSteps.count_users-Takes
perform-Takes b list_users = Takes-discard AuthSteps.list-Takes
perform-Takes b purge_expired = Takes-discard AuthSteps.purge_expired-Takes
perform-Takes b wipe_all_sessions = Takes-discard AuthSteps.wipe_all_sessions-Takes
perform-Takes b (create_user n p r s) = Takes-discard (AuthSteps.create_user-Takes b n p r s)
perform-Takes b (change_password id p) = Takes-discard (AuthSteps.change_password-Takes b id p)
perform-Takes b (change_role id r) = Takes-discard (AuthSteps.change_role-Takes id r)
perform-Takes b (delete_user id) = Takes-discard (AuthSteps.delete_by_id-Takes id)
perform-Takes b (login n p) = Takes-discard (AuthSteps.login-Takes b n p)
perform-Takes b (lookup t) = Takes-discard (AuthSteps.lookup-Takes t)
perform-Takes b (logout t) = Takes-discard (AuthSteps.logout-Takes t)
perform-Takes b (find_or_create_machine n i) =
    Takes-discard (MachinesSteps.find_or_create-Takes n i)
perform-Takes b (find_machine n) = Takes-discard (MachinesSteps.find_by_name-Takes n)
perform-Takes b (get_machine i) = Takes-discard (MachinesSteps.get-Takes i)
perform-Takes b (search_machines q n) = Takes-discard (MachinesSteps.search_machines-Takes q n)
perform-Takes b (create_request i n) = Takes-discard (RepairSteps.create-Takes i n)
perform-Takes b (get_request i) = Takes-discard (RepairSteps.get-Takes i)
perform-Takes b (list_requests f) = Takes-discard (RepairSteps.list-Takes f)
perform-Takes b (claim i n) = Takes-discard (RepairSteps.claim-Takes i n)
perform-Takes b (take_over i n) = Takes-discard (RepairSteps.take_over-Takes i n)
perform-Takes b (transition i s) = Takes-discard (RepairSteps.transition-Takes i s)
perform-Takes b (set_priority i p) = Takes-discard (RepairSteps.set_priority-Takes i p)

performed : (bcrypt : Bcrypt) (calls : List Call) → All (Takes 5) (map (perform bcrypt) calls)
performed bcrypt [] = tt
performed bcrypt (c ∷ calls) = (perform-Takes bcrypt c, performed bcrypt calls)

-- Any number of callers make any calls of the three services at the same time. After a schedule
-- that gives each of them at least five turns, in whatever order, every call has returned its value
-- or its error, whichever statements fail and whatever the clock and the random source give.
pub interleave-perform :
    (bcrypt : Bcrypt) (calls : List Call) (schedule : List ℕ) (w : World)
    → ((i : ℕ) → i < length (map (perform bcrypt) calls) → 5 ≤ turns i schedule)
    → running (interleave schedule (map (perform bcrypt) calls) w).0 ≡ 0
interleave-perform bcrypt calls schedule w enough =
    interleave-running 5 (map (perform bcrypt) calls) schedule w (performed bcrypt calls) enough
