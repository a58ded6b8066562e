-- ===== src/Http/Server/Guarded.antt =====
-- What every request to the daemon meets, whatever its method and path: the session check and the
-- check of the origin.
use mathlib.Core.Bool.{false≢true}
use mathlib.Core.Path.{subst}
use starfighter_workflow.Common.{
  String, Bool, true, false, not, ◌||◌, none, some, List, [], ◌∷◌, ◌≡◌, ◌≢◌, refl, sym, ap, ◌∙◌,
  ◌⊎◌, inl, inr, ◌==◌, eq_iff, arith, All, All-Memᴰ, ◌▸◌, any, is_some, Bool-cases,
}
use starfighter_workflow.Sql.Rows.{first}
use starfighter_workflow.Db.Exec.{World, raise, outcome, IsHealthy}
use starfighter_workflow.Auth.{Bcrypt, is_live}
use starfighter_workflow.Auth.Accounts
use starfighter_workflow.Web.{Site}
use starfighter_workflow.Http.{Method, Reply, failed, is_read, extract_token}
use starfighter_workflow.Http.Routes.{access}
use starfighter_workflow.Http.Guards.{needs_session, IsRefused, serve-IsRefused}
use starfighter_workflow.Http.Origin.{cross_origin_refused}
use starfighter_workflow.Http.Mux.{Incoming, Decoders, Entry, entries, match, pattern_of}
use starfighter_workflow.Http.Mux.Unique.{pattern-matches}
use starfighter_workflow.Http.Server.{serve_http}
use starfighter_workflow.Http.Server.Cases.{
  IsStatic, IsStatic-untouched, segments_of, serve_http-cases,
}
use starfighter_workflow.Http.Server.Methods.{taken-changes_state}

-- the paths that work without a session
abbrev public_paths : List String
public_paths = "/api/v1/status" ∷ "/api/v1/setup" ∷ "/api/v1/auth/login" ∷ []

abbrev pub is_public : List String → Bool
is_public ss = any (λ p. is_some (match (pattern_of p) ss)) public_paths

module _ (bcrypt : Bcrypt) (d : Decoders) where
  -- an entry of a public path, or one whose route asks for a session
  abbrev IsGuarded : Entry → Type 0
  IsGuarded e =
      (any (λ p. p == e.pattern) public_paths ≡ true)
      ⊎ ((id : String) (q : Incoming)
          → needs_session (access bcrypt d.host_of (e.route id q)) ≡ true)

  guarded : All IsGuarded (entries d)
  unfolding entries access
  guarded =
      inl refl
      ▸ inl refl
      ▸ inl refl
      ▸ inr (λ id q. refl)
      ▸ inr (λ id q. refl)
      ▸ inr (λ id q. refl)
      ▸ inr (λ id q. refl)
      ▸ inr (λ id q. refl)
      ▸ inr (λ id q. refl)
      ▸ inr (λ id q. refl)
      ▸ inr (λ id q. refl)
      ▸ inr (λ id q. refl)
      ▸ inr (λ id q. refl)
      ▸ inr (λ id q. refl)
      ▸ inr (λ id q. refl)
      ▸ inr (λ id q. refl)
      ▸ inr (λ id q. refl)
      ▸ inr (λ id q. refl)
      ▸ inr (λ id q. refl)
      ▸ inr (λ id q. refl)
      ▸ tt

public-matches :
    (pattern : String) (ss : List String) (ps : List String)
    → is_some (match (pattern_of pattern) ss) ≡ true
    → any (λ p. p == pattern) ps ≡ true
    → any (λ p. is_some (match (pattern_of p) ss)) ps ≡ true
public-matches pattern ss [] h k = k
public-matches pattern ss (p ∷ ps) h k = elim (Bool-cases (p == pattern)) [
  | inl same ↦ rw (ap (λ x. is_some (match (pattern_of x) ss)) ((eq_iff p pattern).0 same) ∙ h) refl
  | inr other ↦ ground (
    arith,
    other,
    public-matches pattern ss ps h (sym (ap (λ b. b || any (λ x. x == pattern) ps) other) ∙ k),
  )
]

module _ (bcrypt : Bcrypt) (d : Decoders) (site_for : Method → Site Reply) (q : Incoming) where
  -- With no failing statement and no interruption, in sound accounts, a request without a live
  -- session, to any path but those of status, setup and login and with any method, changes nothing:
  -- it gets 401 or 403, or, before the database is asked, the redirect of a path that is not clean,
  -- the text of /healthz to a GET or HEAD of that path, or a page of the frontend if no JSON pattern
  -- matches.
  pub serve_http-IsRefused :
      (w : World)
      → IsHealthy w
      → Accounts.IsSound w.db
      → is_public (segments_of d q) ≡ false
      → first (is_live (extract_token q.request) (w.clock w.tick)) w.db.sessions ≡ none
      → (IsRefused (outcome (serve_http bcrypt d site_for q) w).0 ⊎ IsStatic bcrypt d site_for q)
        × ((outcome (serve_http bcrypt d site_for q) w).1 ≡ w.db)
  serve_http-IsRefused w healthy sound private dead = elim (serve_http-cases bcrypt d site_for q) [
    | inl static ↦ (inr static, IsStatic-untouched bcrypt d site_for q static w)
    | inr t ↦ elim (All-Memᴰ (IsGuarded bcrypt d) (entries d) (guarded bcrypt d) t.registered) [
      | inl listed ↦ absurd (
          false≢true (
            sym private
            ∙ public-matches t.entry.pattern (segments_of d q) public_paths
                (pattern-matches q.request.method (segments_of d q) t.entry t.matches) listed))
      | inr needs ↦
          let (refused, same) =
            serve-IsRefused bcrypt d.host_of (t.entry.route t.id q) q.request w healthy sound
              (needs t.id q) dead in
          (
            inl (subst (λ p. IsRefused (outcome p w).0) (sym t.served) refused),
            ap (λ p. (outcome p w).1) t.served ∙ same,
          )
    ]
  ]

  -- A request with a method other than GET, HEAD and OPTIONS that carries the session cookie and
  -- whose Origin is not its Host gets 403 wherever it goes, before any statement, unless it is
  -- settled without the database: the redirect of a path that is not clean, the text of /healthz, or
  -- a page of the frontend if no JSON pattern matches.
  pub serve_http-foreign :
      is_read q.request.method ≡ false
      → is_some q.request.cookie ≡ true
      → d.host_of q.request.origin ≢ some q.request.host
      → (serve_http bcrypt d site_for q ≡ raise (failed 403)) ⊎ IsStatic bcrypt d site_for q
  serve_http-foreign writes cookie other = elim (serve_http-cases bcrypt d site_for q) [
    | inl static ↦ inr static
    | inr t ↦ inl (
        t.served
        ∙ cross_origin_refused bcrypt d.host_of (t.entry.route t.id q) q.request
            (taken-changes_state bcrypt d site_for q t ∙ ap not writes) writes cookie other)
  ]
