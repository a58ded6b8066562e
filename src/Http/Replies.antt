-- ===== src/Http/Replies.antt =====
-- The replies of the four routes of request_handlers.go that change a request.
use starfighter_workflow.Common.{
  ℕ, suc, ℤ, String, Bool, true, Option, none, some, ◌≡◌, refl, ap, ◌∙◌, Result, if◌then◌else◌,
}
use starfighter_workflow.Db.{Db, is_known}
use starfighter_workflow.Db.Exec.{World, Prog, ret, ◌>>=◌, outcome, IsHealthy}
use starfighter_workflow.Auth.{User}
use starfighter_workflow.Repair
use starfighter_workflow.Repair.{Request}
use starfighter_workflow.Repair.States.{Status}
use starfighter_workflow.Repair.Lifecycle.{IsSound}
use starfighter_workflow.Repair.Spec.{is_status, is_priority}
use starfighter_workflow.Repair.Spec.{
  on_row, decide_claim, decide_take_over, decide_transition, decide_priority,
}
use starfighter_workflow.Repair.Refines.{claim-on_row, take_over-on_row}
use starfighter_workflow.Repair.Moves.{transition-on_row, set_priority-on_row}
use starfighter_workflow.Http.{
  untouched, request, Reply, failed, done, Handler, HttpRequest, or_reply,
}
use starfighter_workflow.Http.Admitted.{refused, replied, or_reply-replied}
use starfighter_workflow.Http.Handlers.{
  decoded, path_id, respond_repair_err, handle_claim_request, handle_take_over_request,
  handle_transition_request, handle_set_priority,
}

-- a request to change the request `id`, with what its body decodes to
pub data Change : Type 0 where
  claiming taking_over : Change
  moving : Option Status → Change
  ranking : Option String → Change

abbrev pub handler : Change → Option ℤ → User → Handler
handler claiming id u = handle_claim_request id u
handler taking_over id u = handle_take_over_request id u
handler (moving to) id u = handle_transition_request id to
handler (ranking priority) id u = handle_set_priority id priority

-- the statuses of net/http that the handlers use
abbrev bad_request : Reply
bad_request = failed 400

abbrev not_found : Reply
not_found = failed 404

abbrev conflict : Reply
conflict = failed 409

abbrev pub status_of : Repair.Error → Reply
status_of Repair.not_found = not_found
status_of Repair.validation = bad_request
status_of Repair.invalid_status = bad_request
status_of Repair.invalid_priority = bad_request
status_of Repair.storage = failed 500
status_of _ = conflict

abbrev pub changed : Request → Reply
changed q = done 200 untouched (request q)

abbrev pub reply_to : Result Repair.Error Request × Db → Result Reply Reply × Db
reply_to = replied status_of changed

-- the reply that the row calls for; `t` and `s` are the times of the first two steps
abbrev pub reply_spec : Change → User → ℕ → ℕ → Option ℤ → Db → Result Reply Reply × Db
reply_spec c u t s none d = refused d
reply_spec claiming u t s (some id) d = reply_to (on_row id (decide_claim u.id t) d)
reply_spec taking_over u t s (some id) d = reply_to (on_row id (decide_take_over u.id t) d)
reply_spec (moving none) u t s (some id) d = refused d
reply_spec (moving (some to)) u t s (some id) d =
    if is_status to then reply_to (on_row id (decide_transition to s) d) else refused d
reply_spec (ranking none) u t s (some id) d = refused d
reply_spec (ranking (some p)) u t s (some id) d =
    if is_priority p then reply_to (on_row id (decide_priority p s) d) else refused d

respond-status_of : (e : Repair.Error) → respond_repair_err e ≡ status_of e
unfolding respond_repair_err
respond-status_of Repair.not_found = refl
respond-status_of Repair.claim_failed = refl
respond-status_of Repair.not_ownable = refl
respond-status_of Repair.use_claim = refl
respond-status_of (Repair.bad_transition from to) = refl
respond-status_of Repair.validation = refl
respond-status_of Repair.invalid_status = refl
respond-status_of Repair.invalid_priority = refl
respond-status_of Repair.storage = refl

answered-reply_to :
    (m : Prog Repair.Error Request) (w : World)
    → outcome (or_reply m respond_repair_err >>= λ q. ret (changed q)) w ≡ reply_to (outcome m w)
answered-reply_to m w = or_reply-replied status_of changed respond-status_of m w

reply_if :
    (b : Bool) (x y : Result Repair.Error Request × Db)
    → reply_to (if b then x else y) ≡ (if b then reply_to x else reply_to y)
reply_if true x y = refl
reply_if Bool.false x y = refl

-- the handlers of the four routes, once the user is known
pub handler-reply_spec :
    (c : Change) (id : Option ℤ) (u : User) (r : HttpRequest) (w : World)
    → IsHealthy w
    → IsSound w.db
    → is_known w.db (some u.id) ≡ true
    → outcome (handler c id u r) w ≡ reply_spec c u (w.clock w.tick) (w.clock (suc w.tick)) id w.db
unfolding handle_claim_request handle_take_over_request handle_transition_request
    handle_set_priority path_id decoded
handler-reply_spec claiming none u r w healthy sound known = refl
handler-reply_spec taking_over none u r w healthy sound known = refl
handler-reply_spec (moving to) none u r w healthy sound known = refl
handler-reply_spec (ranking p) none u r w healthy sound known = refl
handler-reply_spec claiming (some id) u r w healthy sound known =
    answered-reply_to (Repair.claim id u.id) w
    ∙ ap reply_to (claim-on_row id u.id w healthy sound known)
handler-reply_spec taking_over (some id) u r w healthy sound known =
    answered-reply_to (Repair.take_over id u.id) w
    ∙ ap reply_to (take_over-on_row id u.id w healthy sound known)
handler-reply_spec (moving none) (some id) u r w healthy sound known = refl
handler-reply_spec (moving (some to)) (some id) u r w healthy sound known =
    answered-reply_to (Repair.transition id to) w
    ∙ ap reply_to (transition-on_row id w healthy sound to)
    ∙ reply_if (is_status to) _ _
handler-reply_spec (ranking none) (some id) u r w healthy sound known = refl
handler-reply_spec (ranking (some p)) (some id) u r w healthy sound known =
    answered-reply_to (Repair.set_priority id p) w
    ∙ ap reply_to (set_priority-on_row id w healthy sound p)
    ∙ reply_if (is_priority p) _ _
