-- ===== src/Http/Server/Reads.antt =====
-- GET, HEAD and OPTIONS: what they may change.
use mathlib.Core.Bool.{false≢true}
use starfighter_workflow.Common.{
  ℕ, ℤ, String, Bool, true, false, not, Option, none, some, List, [], ◌∷◌, map, ◌≡◌, refl, sym, ap,
  ◌∙◌, inl, inr, All, Bool-cases, ◌+◌,
}
use starfighter_workflow.Sql.Rows.{update}
use starfighter_workflow.Db.{Db, SessionRow}
use starfighter_workflow.Db.Exec.{World, Prog, statement}
use starfighter_workflow.Db.Keeps.{Keeps, returns, raises, Keeps-statement, keeps_rules}
use starfighter_workflow.Db.Threads.{interleave, interleave-Keeps}
use starfighter_workflow.Auth
use starfighter_workflow.Auth.{Bcrypt, User, is_live, session_ttl, slide_session, or_missing}
use starfighter_workflow.Machines
use starfighter_workflow.Repair
use starfighter_workflow.Repair.{or_not_found, Request}
use starfighter_workflow.Web.{Site}
use starfighter_workflow.Http.{
  Method, Reply, HttpRequest, Handler, is_read, require_auth, require_admin,
}
use starfighter_workflow.Http.Handlers.{
  handle_status, handle_me, handle_list_users, handle_workflow_meta, handle_search_machines,
  handle_list_requests, handle_get_request,
}
use starfighter_workflow.Http.Keeping.{reply_rules}
use starfighter_workflow.Http.Routes.{
  Route, access, authorized, changes_state, serve, status, me, list_users, workflow_meta,
  search_machines, list_requests, get_request,
}
use starfighter_workflow.Http.Mux.{Incoming, Decoders}
use starfighter_workflow.Http.Server.{serve_http}
use starfighter_workflow.Http.Server.Cases.{IsStatic-reply, serve_http-cases}
use starfighter_workflow.Http.Server.Methods.{taken-changes_state}

abbrev unexpired : SessionRow → SessionRow
unexpired s = record s { expires_at = 0 }

-- the database without the expiry of its sessions
abbrev pub settled : Db → Db
settled d = record d { sessions = map unexpired d.sessions }

-- nothing but the expiry of sessions has changed since `before`
abbrev pub IsUntouched : Db → Db → Type 0
IsUntouched before d = settled d ≡ settled before

abbrev put_off : ℕ → SessionRow → SessionRow
put_off t s = record s { expires_at = t }

unexpired-update :
    (p : SessionRow → Bool) (t : ℕ) (xs : List SessionRow)
    → map unexpired (update p (put_off t) xs) ≡ map unexpired xs
unfolding update
unexpired-update p t [] = refl
unexpired-update p t (x ∷ xs) = elim (Bool-cases (p x)) [
  | inl hit ↦ rw (hit, unexpired-update p t xs) refl
  | inr miss ↦ rw (miss, unexpired-update p t xs) refl
]

module _ (before : Db) where
  abbrev Reads : {E A : Type 0} → Prog E A → Type 0
  Reads p = Keeps (IsUntouched before) p

  slide_session-Reads :
      (bad : Auth.Error) (token : String) (t : ℕ) → Reads (statement bad (slide_session token t))
  unfolding slide_session
  slide_session-Reads bad token t = Keeps-statement bad (slide_session token t) (λ d h.
      ap (λ xs. record d { sessions = xs })
        (unexpired-update (is_live token t) (t + session_ttl) d.sessions)
      ∙ h)

  or_missing-Reads : {A : Type 0} (e : Auth.Error) (o : Option A) → Reads (or_missing e o)
  unfolding or_missing
  or_missing-Reads e none = raises e
  or_missing-Reads e (some a) = returns a

  or_not_found-Reads : (o : Option Request) → Reads (or_not_found o)
  unfolding or_not_found
  or_not_found-Reads none = search keeps_rules
  or_not_found-Reads (some r) = search keeps_rules

  lookup-Reads : (token : String) → Reads (Auth.lookup token)
  unfolding Auth.lookup
  lookup-Reads token = search (keeps_rules, slide_session-Reads, or_missing-Reads) depth 9

  handle_status-Reads : (r : HttpRequest) → Reads (handle_status r)
  unfolding handle_status Auth.count_users
  handle_status-Reads r = search reply_rules depth 14

  handle_list_users-Reads : (r : HttpRequest) → Reads (handle_list_users r)
  unfolding handle_list_users Auth.list
  handle_list_users-Reads r = search reply_rules depth 14

  handle_search_machines-Reads :
      (q : String) (n : Option ℤ) (r : HttpRequest) → Reads (handle_search_machines q n r)
  unfolding handle_search_machines Machines.search_machines
  handle_search_machines-Reads q n r = search reply_rules depth 14

  handle_list_requests-Reads :
      (s : String) (o : Bool) (r : HttpRequest) → Reads (handle_list_requests s o r)
  unfolding handle_list_requests Repair.list
  handle_list_requests-Reads s o r = search reply_rules depth 14

  handle_get_request-Reads : (id : Option ℤ) (r : HttpRequest) → Reads (handle_get_request id r)
  unfolding handle_get_request Repair.get
  handle_get_request-Reads id r = search (reply_rules, or_not_found-Reads) depth 14

  require_auth-Reads :
      (next : User → Handler)
      → ((u : User) (r : HttpRequest) → Reads (next u r))
      → (r : HttpRequest) → Reads (require_auth next r)
  unfolding require_auth
  require_auth-Reads next h r = search (reply_rules, lookup-Reads, h) depth 9

  require_admin-Reads :
      (next : Handler)
      → ((r : HttpRequest) → Reads (next r))
      → (r : HttpRequest) → Reads (require_admin (λ u. next) r)
  unfolding require_admin
  require_admin-Reads next h r = require_auth-Reads _ (λ u q. search (reply_rules, h)) r

  module _ (bcrypt : Bcrypt) (host_of : String → Option String) where
    serve-Reads :
        (route : Route) (r : HttpRequest)
        → changes_state bcrypt host_of route ≡ false
        → Reads (serve bcrypt host_of route r)
    unfolding serve changes_state access authorized handle_me handle_workflow_meta
    serve-Reads status r h = handle_status-Reads r
    serve-Reads me r h = require_auth-Reads _ (λ u q. returns _) r
    serve-Reads list_users r h = require_admin-Reads _ handle_list_users-Reads r
    serve-Reads workflow_meta r h = require_auth-Reads _ (λ u q. returns _) r
    serve-Reads (search_machines q n) r h =
        require_auth-Reads _ (λ u. handle_search_machines-Reads q n) r
    serve-Reads (list_requests s o) r h =
        require_auth-Reads _ (λ u. handle_list_requests-Reads s o) r
    serve-Reads (get_request id) r h = require_auth-Reads _ (λ u. handle_get_request-Reads id) r
    serve-Reads _ r h = absurd (false≢true (sym h))

  module _ (bcrypt : Bcrypt) (d : Decoders) (site_for : Method → Site Reply) where
    serve_http-Reads :
        (q : Incoming) → is_read q.request.method ≡ true → Reads (serve_http bcrypt d site_for q)
    serve_http-Reads q reads = elim (serve_http-cases bcrypt d site_for q) [
      | inl static ↦
          let (reply, same) = IsStatic-reply bcrypt d site_for q static in rw same (returns reply)
      | inr t ↦ rw t.served (
          serve-Reads bcrypt d.host_of (t.entry.route t.id q) q.request
            (taken-changes_state bcrypt d site_for q t ∙ ap not reads))
    ]

    all-Reads :
        (qs : List Incoming)
        → All (λ q. is_read q.request.method ≡ true) qs
        → All (Keeps (IsUntouched before)) (map (serve_http bcrypt d site_for) qs)
    all-Reads [] h = tt
    all-Reads (q ∷ qs) (h, hs) = (serve_http-Reads q h, all-Reads qs hs)

-- Any requests with GET, HEAD or OPTIONS, to any paths, are served at the same time. Whatever the
-- schedule of their statements, whichever statements fail and whatever the clock and the random
-- source give, nothing in the database changes but the expiry of sessions.
pub reads-IsUntouched :
    (bcrypt : Bcrypt) (d : Decoders) (site_for : Method → Site Reply) (qs : List Incoming)
    (schedule : List ℕ) (w : World)
    → All (λ q. is_read q.request.method ≡ true) qs
    → IsUntouched w.db (interleave schedule (map (serve_http bcrypt d site_for) qs) w).1.db
reads-IsUntouched bcrypt d site_for qs schedule w reads =
    interleave-Keeps (IsUntouched w.db) schedule (map (serve_http bcrypt d site_for) qs) w
      (all-Reads w.db bcrypt d site_for qs reads) refl
