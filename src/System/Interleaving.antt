-- ===== src/System/Interleaving.antt =====
-- Calls of the three services at the same time.
use starfighter_workflow.Common.{ℕ, List, [], ◌∷◌, All}
use mathlib.Core.List.{map}
use starfighter_workflow.Db.{Db}
use starfighter_workflow.Db.Exec.{World, Prog}
use starfighter_workflow.Db.Keeps.{Keeps, returns, raises, steps}
use starfighter_workflow.Db.Threads.{interleave, interleave-Keeps}
use starfighter_workflow.Auth.{Bcrypt}
use starfighter_workflow.Auth.Operations as AuthOperations
use starfighter_workflow.Machines.Kept as MachinesKept
use starfighter_workflow.Repair.Operations as RepairOperations
use starfighter_workflow.System.{
  Call, discard, perform, find_user, find_user_by_name, count_users, list_users, purge_expired,
  wipe_all_sessions, create_user, change_password, change_role, delete_user, login, lookup, logout,
  find_or_create_machine, find_machine, get_machine, search_machines, create_request, get_request,
  list_requests, claim, take_over, transition, set_priority,
}
use starfighter_workflow.System.Sound.{
  IsSound, IsSound-AuthKept, IsSound-MachinesKept, IsSound-RepairKept,
}

pub Keeps-discard :
    (P : Db → Type 0) {E A : Type 0} {m : Prog E A} → Keeps P m → Keeps P (discard m)
Keeps-discard P (returns a) = returns tt
Keeps-discard P (raises e) = raises tt
Keeps-discard P (steps f m) = steps f (λ w. Keeps-discard P (m w))

module _ (bcrypt : Bcrypt) where
  perform-Keeps : (c : Call) → Keeps IsSound (perform bcrypt c)
  unfolding perform
  perform-Keeps (find_user id) =
      Keeps-discard IsSound (AuthOperations.find_by_id-Keeps IsSound IsSound-AuthKept id)
  perform-Keeps (find_user_by_name n) =
      Keeps-discard IsSound (AuthOperations.find_by_username-Keeps IsSound IsSound-AuthKept n)
  perform-Keeps count_users =
      Keeps-discard IsSound (AuthOperations.count_users-Keeps IsSound IsSound-AuthKept)
  perform-Keeps list_users =
      Keeps-discard IsSound (AuthOperations.list-Keeps IsSound IsSound-AuthKept)
  perform-Keeps purge_expired =
      Keeps-discard IsSound (AuthOperations.purge_expired-Keeps IsSound IsSound-AuthKept)
  perform-Keeps wipe_all_sessions =
      Keeps-discard IsSound (AuthOperations.wipe_all_sessions-Keeps IsSound IsSound-AuthKept)
  perform-Keeps (create_user n p r s) =
      Keeps-discard IsSound
        (AuthOperations.create_user-Keeps IsSound IsSound-AuthKept bcrypt n p r s)
  perform-Keeps (change_password id p) =
      Keeps-discard IsSound
        (AuthOperations.change_password-Keeps IsSound IsSound-AuthKept bcrypt id p)
  perform-Keeps (change_role id r) =
      Keeps-discard IsSound (AuthOperations.change_role-Keeps IsSound IsSound-AuthKept id r)
  perform-Keeps (delete_user id) =
      Keeps-discard IsSound (AuthOperations.delete_by_id-Keeps IsSound IsSound-AuthKept id)
  perform-Keeps (login n p) =
      Keeps-discard IsSound (AuthOperations.login-Keeps IsSound IsSound-AuthKept bcrypt n p)
  perform-Keeps (lookup t) =
      Keeps-discard IsSound (AuthOperations.lookup-Keeps IsSound IsSound-AuthKept t)
  perform-Keeps (logout t) =
      Keeps-discard IsSound (AuthOperations.logout-Keeps IsSound IsSound-AuthKept t)
  perform-Keeps (find_or_create_machine n i) =
      Keeps-discard IsSound (MachinesKept.find_or_create-Keeps IsSound IsSound-MachinesKept n i)
  perform-Keeps (find_machine n) =
      Keeps-discard IsSound (MachinesKept.find_by_name-Keeps IsSound IsSound-MachinesKept n)
  perform-Keeps (get_machine i) =
      Keeps-discard IsSound (MachinesKept.get-Keeps IsSound IsSound-MachinesKept i)
  perform-Keeps (search_machines q n) =
      Keeps-discard IsSound (MachinesKept.search_machines-Keeps IsSound IsSound-MachinesKept q n)
  perform-Keeps (create_request i n) =
      Keeps-discard IsSound (RepairOperations.create-Keeps IsSound IsSound-RepairKept i n)
  perform-Keeps (get_request i) =
      Keeps-discard IsSound (RepairOperations.get-Keeps IsSound IsSound-RepairKept i)
  perform-Keeps (list_requests f) =
      Keeps-discard IsSound (RepairOperations.list-Keeps IsSound IsSound-RepairKept f)
  perform-Keeps (claim i n) =
      Keeps-discard IsSound (RepairOperations.claim-Keeps IsSound IsSound-RepairKept i n)
  perform-Keeps (take_over i n) =
      Keeps-discard IsSound (RepairOperations.take_over-Keeps IsSound IsSound-RepairKept i n)
  perform-Keeps (transition i s) =
      Keeps-discard IsSound (RepairOperations.transition-Keeps IsSound IsSound-RepairKept i s)
  perform-Keeps (set_priority i p) =
      Keeps-discard IsSound (RepairOperations.set_priority-Keeps IsSound IsSound-RepairKept i p)

  performed : (calls : List Call) → All (Keeps IsSound) (map (perform bcrypt) calls)
  performed [] = tt
  performed (c ∷ calls) = (perform-Keeps c, performed calls)

-- Any number of callers make any calls of the three services at the same time. Whatever the
-- schedule of their statements, whichever statements fail and whatever the clock and the random
-- source give, the database stays sound if it was: ids, names and tokens stay unique, sessions have
-- users, requests have machines, statuses and priorities stay in range, an unclaimed request has no
-- owner, and `closed_at` is set exactly in the terminal statuses.
pub interleave-IsSound :
    (bcrypt : Bcrypt) (calls : List Call) (schedule : List ℕ) (w : World)
    → IsSound w.db
    → IsSound (interleave schedule (map (perform bcrypt) calls) w).1.db
interleave-IsSound bcrypt calls schedule w s =
    interleave-Keeps IsSound schedule (map (perform bcrypt) calls) w (performed bcrypt calls) s
