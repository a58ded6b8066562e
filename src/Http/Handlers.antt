-- ===== src/Http/Handlers.antt =====
-- auth_handlers.go, user_handlers.go, request_handlers.go and `handleStatus` of server.go.
use starfighter_workflow.Common.{
  ℕ, ℤ, pos, String, Bool, Option, none, some, [], ◌∷◌, ◌==◌, ltb, ◌=ℕ◌, if◌then◌else◌, map,
}
use starfighter_workflow.Db.Exec.{Prog, ret, raise, ◌>>=◌, ◌>>◌, inspect}
use starfighter_workflow.Auth
use starfighter_workflow.Auth.{
  Bcrypt, User, role_admin, role_user, invalid_login, user_exists, user_not_found, last_admin,
  bad_role, password_too_short,
}
use starfighter_workflow.Machines
use starfighter_workflow.Repair
use starfighter_workflow.Repair.States.{Status, all_statuses, is_terminal, allowed_next}
use starfighter_workflow.Http.{
  untouched, cleared, set_to, Payload, ok_status, needs_setup, user, users, session, machines,
  request, requests, workflow, Reply, failed, done, Handler, or_reply, extract_token,
}

-- a decoded body, 400 if it is no JSON, and a parsed id, 400 if it is none
unfoldable pub decoded : {A : Type 0} → Option A → Prog Reply A
decoded none = raise (failed 400)
decoded (some a) = ret a

unfoldable pub path_id : Option ℤ → Prog Reply ℤ
path_id none = raise (failed 400)
path_id (some id) = ret id

abbrev plain : ℕ → Payload → Prog Reply Reply
plain status p = ret (done status untouched p)

abbrev internal : {E : Type 0} → E → Reply
internal e = failed 500

unfoldable pub respond_user_err : Auth.Error → Reply
respond_user_err user_not_found = failed 404
respond_user_err last_admin = failed 409
respond_user_err bad_role = failed 400
respond_user_err password_too_short = failed 400
respond_user_err _ = failed 500

unfoldable pub create_user_err : Auth.Error → Reply
create_user_err user_exists = failed 409
create_user_err _ = failed 400

unfoldable pub respond_repair_err : Repair.Error → Reply
respond_repair_err Repair.not_found = failed 404
respond_repair_err Repair.claim_failed = failed 409
respond_repair_err Repair.not_ownable = failed 409
respond_repair_err Repair.use_claim = failed 409
respond_repair_err (Repair.bad_transition from to) = failed 409
respond_repair_err Repair.validation = failed 400
respond_repair_err Repair.invalid_status = failed 400
respond_repair_err Repair.invalid_priority = failed 400
respond_repair_err Repair.storage = failed 500

unfoldable pub handle_status : Handler
handle_status r = do n ← or_reply Auth.count_users internal; plain 200 (needs_setup (n =ℕ 0))

pub record CreateUserReq : Type 0 where
  pub username : String
  pub password : String
  pub role : String
  pub display_name : String

pub record SetupReq : Type 0 where
  pub username : String
  pub password : String
  pub display_name : String

pub record LoginReq : Type 0 where
  pub username : String
  pub password : String

pub record CreateRequestReq : Type 0 where
  pub machine : String
  pub problem_summary : String
  pub problem_detail : String
  pub priority : String

-- the handlers that hash or compare passwords
module _ (bcrypt : Bcrypt) where
  unfoldable pub handle_setup : Option SetupReq → Handler
  unfolding decoded
  handle_setup body r = do
    n ← or_reply Auth.count_users internal
    if ltb 0 n then raise (failed 409) else do
      req ← decoded body
      u ←
          or_reply (Auth.create_user bcrypt req.username req.password role_admin req.display_name)
            (λ e. failed 400)
      s ← or_reply (Auth.login bcrypt req.username req.password) internal
      ret (done 201 (set_to s.0) (session u s.0))

  login_err : Auth.Error → Reply
  login_err invalid_login = failed 401
  login_err _ = failed 500

  unfoldable pub handle_login : Option LoginReq → Handler
  unfolding decoded login_err
  handle_login body r = do
    req ← decoded body
    s ← or_reply (Auth.login bcrypt req.username req.password) login_err
    ret (done 200 (set_to s.0) (session s.1 s.0))

  unfoldable pub handle_change_my_password : Option String → User → Handler
  unfolding decoded
  handle_change_my_password body u r = do
    password ← decoded body
    or_reply (Auth.change_password bcrypt u.id password) (λ e. failed 400)
    plain 200 ok_status

  unfoldable pub handle_create_user : Option CreateUserReq → Handler
  unfolding decoded create_user_err
  handle_create_user body r = do
    req ← decoded body
    let role = if req.role == "" then role_user else req.role
    u ←
        or_reply (Auth.create_user bcrypt req.username req.password role req.display_name)
          create_user_err
    plain 201 (user u)

  unfoldable pub handle_change_user_password : Option ℤ → Option String → Handler
  unfolding decoded path_id
  handle_change_user_password at body r = do
    id ← path_id at
    password ← decoded body
    or_reply (Auth.change_password bcrypt id password) respond_user_err
    plain 200 ok_status

-- an error of the logout is ignored
unfoldable pub handle_logout : Handler
handle_logout r =
    if extract_token r == ""
    then ret (done 200 cleared ok_status)
    else inspect (Auth.logout (extract_token r)) (λ e. ret (done 200 cleared ok_status))

unfoldable pub handle_me : User → Handler
handle_me u r = plain 200 (user u)

unfoldable pub handle_list_users : Handler
handle_list_users r = do us ← or_reply Auth.list internal; plain 200 (users us)

unfoldable pub handle_delete_user : Option ℤ → Handler
unfolding path_id
handle_delete_user at r = do
  id ← path_id at
  or_reply (Auth.delete_by_id id) respond_user_err
  plain 200 ok_status

unfoldable pub handle_change_user_role : Option ℤ → Option String → Handler
unfolding path_id decoded
handle_change_user_role at body r = do
  id ← path_id at
  role ← decoded body
  or_reply (Auth.change_role id role) respond_user_err
  plain 200 ok_status

-- `limit` is what `Atoi` made of the parameter, 20 without it
unfoldable pub handle_search_machines : String → Option ℤ → Handler
handle_search_machines q limit r = do
  ms ← or_reply (Machines.search_machines q (elim limit [ none ↦ pos 20 | some n ↦ n ])) internal
  plain 200 (machines ms)

unfoldable pub handle_workflow_meta : Handler
handle_workflow_meta r = plain 200 (
    workflow (map (λ s. (s, is_terminal s, allowed_next s)) all_statuses)
      ("low" ∷ "normal" ∷ "high" ∷ "urgent" ∷ []))

unfoldable pub handle_list_requests : String → Bool → Handler
handle_list_requests status only_open r = do
  rs ←
      or_reply (Repair.list (record { status = status; assigned_to = none; open_only = only_open }))
        internal
  plain 200 (requests rs)

pub machine_err : Machines.Error → Reply
machine_err Machines.empty_name = failed 400
machine_err _ = failed 500

unfoldable pub handle_create_request : Option CreateRequestReq → User → Handler
unfolding decoded machine_err
handle_create_request body u r = do
  req ← decoded body
  found ← or_reply (Machines.find_or_create req.machine u.id) machine_err
  rec ←
      or_reply
        (Repair.create
          (record {
            machine_id = found.0.id;
            problem_summary = req.problem_summary;
            problem_detail = req.problem_detail;
            priority = req.priority;
          })
          u.id)
        respond_repair_err
  plain 201 (request rec)

unfoldable pub handle_get_request : Option ℤ → Handler
unfolding path_id
handle_get_request at r = do
  id ← path_id at
  rec ← or_reply (Repair.get id) respond_repair_err
  plain 200 (request rec)

unfoldable pub handle_claim_request : Option ℤ → User → Handler
unfolding path_id
handle_claim_request at u r = do
  id ← path_id at
  rec ← or_reply (Repair.claim id u.id) respond_repair_err
  plain 200 (request rec)

unfoldable pub handle_take_over_request : Option ℤ → User → Handler
unfolding path_id
handle_take_over_request at u r = do
  id ← path_id at
  rec ← or_reply (Repair.take_over id u.id) respond_repair_err
  plain 200 (request rec)

unfoldable pub handle_transition_request : Option ℤ → Option Status → Handler
unfolding path_id decoded
handle_transition_request at body r = do
  id ← path_id at
  status ← decoded body
  rec ← or_reply (Repair.transition id status) respond_repair_err
  plain 200 (request rec)

unfoldable pub handle_set_priority : Option ℤ → Option String → Handler
unfolding path_id decoded
handle_set_priority at body r = do
  id ← path_id at
  priority ← decoded body
  rec ← or_reply (Repair.set_priority id priority) respond_repair_err
  plain 200 (request rec)
