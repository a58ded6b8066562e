-- ===== src/Http/Server/Admins.antt =====
-- User management is for admins, by its paths.
use mathlib.Core.Bool.{false≢true}
use mathlib.Core.Path.{subst}
use starfighter_workflow.Common.{
  String, Bool, true, false, ◌||◌, List, [], ◌∷◌, ◌≡◌, refl, sym, ap, ◌∙◌, ◌⊎◌, inl, inr, ◌==◌,
  arith, All, All-Memᴰ, ◌▸◌, any, is_some, Bool-cases, ok,
}
use starfighter_workflow.Db.Exec.{World, outcome, IsHealthy}
use starfighter_workflow.Auth.{Bcrypt, User, role_admin}
use starfighter_workflow.Auth.Accounts
use starfighter_workflow.Auth.Sessions.{lookup_spec}
use starfighter_workflow.Web.{Site}
use starfighter_workflow.Http.{Method, Reply, extract_token}
use starfighter_workflow.Http.Routes.{access}
use starfighter_workflow.Http.Guards.{needs_admin, IsTurnedAway, serve-IsTurnedAway}
use starfighter_workflow.Http.Mux.{Incoming, Decoders, Entry, entries, match, pattern_of}
use starfighter_workflow.Http.Mux.Unique.{overlap, both_match, pattern-matches}
use starfighter_workflow.Http.Server.{serve_http}
use starfighter_workflow.Http.Server.Cases.{
  IsStatic, IsStatic-untouched, segments_of, serve_http-cases,
}

-- the paths of user management
abbrev admin_paths : List String
admin_paths = "/api/v1/users" ∷ "/api/v1/users/{id}" ∷ "/api/v1/users/{id}/password" ∷ []

abbrev pub is_admin_path : List String → Bool
is_admin_path ss = any (λ p. is_some (match (pattern_of p) ss)) admin_paths

abbrev meets : Entry → String → Bool
meets e p = overlap (pattern_of p) (pattern_of e.pattern)

-- an entry away from those paths, or one whose route asks for an admin
abbrev IsReserved : Bcrypt → Decoders → Entry → Type 0
IsReserved bcrypt d e =
    (any (meets e) admin_paths ≡ false)
    ⊎ ((id : String) (q : Incoming) → needs_admin (access bcrypt d.host_of (e.route id q)) ≡ true)

reserved : (bcrypt : Bcrypt) (d : Decoders) → All (IsReserved bcrypt d) (entries d)
unfolding entries access overlap pattern_of
reserved bcrypt d =
    inl refl
    ▸ inl refl
    ▸ inl refl
    ▸ inl refl
    ▸ inl refl
    ▸ inl refl
    ▸ inr (λ id q. refl)
    ▸ inr (λ id q. refl)
    ▸ inr (λ id q. refl)
    ▸ inr (λ id q. refl)
    ▸ inr (λ id q. refl)
    ▸ inl refl
    ▸ inl refl
    ▸ inl refl
    ▸ inl refl
    ▸ inl refl
    ▸ inl refl
    ▸ inl refl
    ▸ inl refl
    ▸ inl refl
    ▸ tt

meets-matched :
    (e : Entry) (ss : List String) (ps : List String)
    → is_some (match (pattern_of e.pattern) ss) ≡ true
    → any (λ p. is_some (match (pattern_of p) ss)) ps ≡ true
    → any (meets e) ps ≡ true
meets-matched e ss [] h k = k
meets-matched e ss (p ∷ ps) h k = elim (Bool-cases (is_some (match (pattern_of p) ss))) [
  | inl hit ↦ rw (both_match (pattern_of p) (pattern_of e.pattern) ss hit h) refl
  | inr miss ↦ ground (
    arith,
    meets-matched e ss ps h
        (sym (ap (λ b. b || any (λ x. is_some (match (pattern_of x) ss)) ps) miss) ∙ k),
  )
]

-- With no failing statement and no interruption, in sound accounts, a user who is no admin gets 401
-- or 403 for every method and every path of user management, unless the answer is settled without
-- the database: the redirect of a path that is not clean, the text of /healthz, or a page of the
-- frontend if no JSON pattern matches. The database stays as it was, but for the expiry of the session.
pub serve_http-IsTurnedAway :
    (bcrypt : Bcrypt) (d : Decoders) (site_for : Method → Site Reply) (q : Incoming) (w : World)
    {u : User}
    → IsHealthy w
    → Accounts.IsSound w.db
    → is_admin_path (segments_of d q) ≡ true
    → (lookup_spec (extract_token q.request) (w.clock w.tick) w.db).0 ≡ ok u
    → (u.role == role_admin) ≡ false
    → IsTurnedAway w.db
        (lookup_spec (extract_token q.request) (w.clock w.tick) w.db).1
        (outcome (serve_http bcrypt d site_for q) w)
      ⊎ (IsStatic bcrypt d site_for q × ((outcome (serve_http bcrypt d site_for q) w).1 ≡ w.db))
serve_http-IsTurnedAway bcrypt d site_for q w healthy sound managed known other =
    elim (serve_http-cases bcrypt d site_for q) [
      | inl static ↦ inr (static, IsStatic-untouched bcrypt d site_for q static w)
      | inr t ↦ elim (All-Memᴰ (IsReserved bcrypt d) (entries d) (reserved bcrypt d) t.registered) [
        | inl away ↦ absurd (
            false≢true (
              sym away
              ∙ meets-matched t.entry (segments_of d q) admin_paths
                  (pattern-matches q.request.method (segments_of d q) t.entry t.matches) managed))
        | inr needs ↦ inl (
            subst
              (λ p.
                IsTurnedAway w.db (lookup_spec (extract_token q.request) (w.clock w.tick) w.db).1
                  (outcome p w))
              (sym t.served)
              (serve-IsTurnedAway bcrypt d.host_of (t.entry.route t.id q) q.request w healthy sound
                (needs t.id q) known other))
      ]
    ]
