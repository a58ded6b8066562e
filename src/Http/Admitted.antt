-- ===== src/Http/Admitted.antt =====
-- A request that middleware.go lets through: it comes from the site itself, with the token of a
-- session that is live and has an owner; and the reply that follows the call of a service.
use starfighter_workflow.Common.{
  suc, ◌+◌, String, true, false, Option, some, ◌≡◌, refl, ap, ◌∙◌, ◌==◌, eq_iff, ltb, Bool-cases,
  is_some, inl, inr, Result, ok, err,
}
use starfighter_workflow.Sql.Rows.{first}
use starfighter_workflow.Db.{Db, UserRow, SessionRow, is_user}
use starfighter_workflow.Db.Exec.{World, Prog, ret, raise, step, ◌>>=◌, run, outcome, IsHealthy}
use starfighter_workflow.Auth.{Error, User, scan_user, session_ttl, has_token, lookup}
use starfighter_workflow.Auth.Accounts
use starfighter_workflow.Auth.Sessions.{extend, run-lookup}
use starfighter_workflow.Http.{
  HttpRequest, Reply, failed, Handler, or_reply, extract_token, require_auth, is_read, match_origin,
  require_same_origin,
}
use starfighter_workflow.Http.Guards.{or_reply-ok}

abbrev pub refused : Db → Result Reply Reply × Db
refused d = (err (failed 400), d)

module _ {E A : Type 0} where
  -- the reply to what a service returned
  abbrev pub replied : (E → Reply) → (A → Reply) → Result E A × Db → Result Reply Reply × Db
  replied f k (ok a, d) = (ok (k a), d)
  replied f k (err e, d) = (err (f e), d)

  pub or_reply-replied :
      {f : E → Reply} (g : E → Reply) (k : A → Reply)
      → ((e : E) → f e ≡ g e)
      → (m : Prog E A) (w : World)
      → outcome (or_reply m f >>= λ a. ret (k a)) w ≡ replied g k (outcome m w)
  or_reply-replied g k same (ret a) w = refl
  or_reply-replied g k same (raise e) w = ap (λ r. (err r, w.db)) (same e)
  or_reply-replied g k same (step s m) w = or_reply-replied g k same (m w) (s w)

module _ (host_of : String → Option String) (next : Handler) (r : HttpRequest) where
  pub same_origin-own :
      (r.origin == "") ≡ false
      → host_of r.origin ≡ some r.host
      → require_same_origin host_of next r ≡ next r
  unfolding require_same_origin match_origin
  same_origin-own origin own =
      let same : (r.host == r.host) ≡ true = (eq_iff r.host r.host).1 refl in
      rw (origin, own)
        (elim (Bool-cases (is_read r.method)) [
          | inl reads ↦ rw reads refl
          | inr writes ↦ rw writes (elim (Bool-cases (is_some r.cookie)) [
            | inl cookie ↦ rw (cookie, same) refl
            | inr bare ↦ rw bare refl
          ])
        ])

module _ (r : HttpRequest) (w : World) where
  abbrev token : String
  token = extract_token r

  -- after the three statements of `Lookup`, with the session slid
  abbrev pub slid : World
  slid = record w {
    db = extend token (w.clock w.tick + session_ttl) w.db;
    tick = suc (suc (suc w.tick));
  }

  pub require_auth-admitted :
      IsHealthy w
      → Accounts.IsSound w.db
      → (next : User → Handler) {s : SessionRow} {u : UserRow} → (token == "") ≡ false
      → first (has_token token) w.db.sessions ≡ some s
      → ltb (w.clock w.tick) s.expires_at ≡ true
      → first (is_user s.user_id) w.db.users ≡ some u
      → outcome (require_auth next r) w ≡ outcome (next (scan_user u) r) slid
  unfolding require_auth
  require_auth-admitted healthy accounts next {u = u} present found fresh owner =
      let looked : run (lookup token) w ≡ (ok (scan_user u), slid) =
        run-lookup token w healthy accounts found fresh owner in
      rw present (
        ap (λ (v : Result Reply Reply × World). (v.0, v.1.db))
          (or_reply-ok (λ e. failed 401) (λ u. next u r) (lookup token) w (ap (λ v. v.0) looked))
        ∙ ap (λ (v : Result Error User × World). outcome (next (scan_user u) r) v.1) looked)
