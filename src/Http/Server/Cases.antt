-- ===== src/Http/Server/Cases.antt =====
-- What `serve_http` comes to: an answer that needs no database, or an entry of `routes`.
use mathlib.Core.Bool.{false≢true}
use mathlib.Core.List.{Memᴰ}
use starfighter_workflow.Common.{
  String, true, false, Option, none, some, List, [], ◌∷◌, All, eq_iff, and_left, and_right, arith,
  is_some, map, ◌≡◌, refl, ap, ◌⊎◌, inl, inr, ◌==◌, Bool-cases,
}
use starfighter_workflow.Db.Exec.{ret, World, outcome}
use starfighter_workflow.Auth.{Bcrypt}
use starfighter_workflow.Web.{Site, handler}
use starfighter_workflow.Http.{Method, get_method, Reply, done, untouched, location, health_text}
use starfighter_workflow.Http.Routes.{serve}
use starfighter_workflow.Http.Mux.{
  Incoming, Decoders, Endpoint, moved, health, frontend, dispatch, segments, find, entries, Entry,
  match_entry, match_method, match, pattern_of, is_health, json, route_or_frontend,
}
use starfighter_workflow.Http.Mux.Unique.{found, none_found}
use starfighter_workflow.Http.Server.{serve_http, answer, handle_healthz}

-- the segments of the path that the mux compares
abbrev pub segments_of : Decoders → Incoming → List String
segments_of d q = map d.unescape (segments q.escaped_path)

module _ (bcrypt : Bcrypt) (d : Decoders) (site_for : Method → Site Reply) (q : Incoming) where
  -- the request belongs to an entry of `routes`, which serves it
  pub record Taken : Type 0 where
    pub id : String
    pub entry : Entry
    pub registered : Memᴰ entry (entries d)
    pub matches : match_entry entry q.request.method (segments_of d q) ≡ some id
    pub served :
        serve_http bcrypt d site_for q ≡ serve bcrypt d.host_of (entry.route id q) q.request

  -- The reply is settled before the database is asked: a redirect, if the path is not clean; the
  -- text of /healthz to a GET or HEAD of that path; or a page of the frontend, if no pattern of
  -- `routes` matches.
  abbrev Redirected : Type 0
  Redirected =
      ((d.clean q.escaped_path == q.escaped_path) ≡ false)
      × (serve_http bcrypt d site_for q
          ≡ ret (done 301 untouched (location (d.clean q.escaped_path))))

  abbrev IsHealthCheck : Type 0
  IsHealthCheck =
      (segments_of d q ≡ "healthz" ∷ [])
      × (match_method get_method q.request.method ≡ true)
      × (serve_http bcrypt d site_for q ≡ ret (done 200 untouched health_text))

  abbrev IsPage : Type 0
  IsPage =
      All (λ e. match_entry e q.request.method (segments_of d q) ≡ none) (entries d)
      × (serve_http bcrypt d site_for q ≡ ret (handler (site_for q.request.method) q.path))

  abbrev pub IsStatic : Type 0
  IsStatic = Redirected ⊎ (IsHealthCheck ⊎ IsPage)

  pub IsStatic-reply : IsStatic → (reply : Reply) × (serve_http bcrypt d site_for q ≡ ret reply)
  IsStatic-reply (inl (_, h)) = (_, h)
  IsStatic-reply (inr (inl (_, _, h))) = (_, h)
  IsStatic-reply (inr (inr (_, h))) = (_, h)

  pub IsStatic-untouched :
      IsStatic → (w : World) → (outcome (serve_http bcrypt d site_for q) w).1 ≡ w.db
  IsStatic-untouched static w = ap (λ p. (outcome p w).1) (IsStatic-reply static).1

  health_path :
      (ss : List String) → is_some (match (pattern_of "/healthz") ss) ≡ true → ss ≡ "healthz" ∷ []
  unfolding match pattern_of segments
  health_path [] h = absurd (false≢true h)
  health_path (s ∷ []) h = ap (λ x. x ∷ []) ((eq_iff s "healthz").0 (ground arith))
  health_path (s ∷ u ∷ ss) h = absurd (ground arith)

  settled :
      (e : Endpoint)
      → dispatch d q ≡ e
      → serve_http bcrypt d site_for q ≡ answer bcrypt d site_for q e
  unfolding serve_http
  settled e same = ap (answer bcrypt d site_for q) same

  routed :
      (o : Option (String × Entry))
      → find (entries d) q.request.method (segments_of d q) ≡ o
      → dispatch d q ≡ route_or_frontend q o
      → IsStatic ⊎ Taken
  unfolding answer
  routed none h same = inl (
      inr
        (inr (none_found q.request.method (segments_of d q) (entries d) h, settled frontend same)))
  routed (some (id, e)) h same =
      let (member, matched) = found q.request.method (segments_of d q) (entries d) h in
      inr (record {
        id = id;
        entry = e;
        registered = member;
        matches = matched;
        served = settled (json (e.route id q)) same;
      })

  pub serve_http-cases : IsStatic ⊎ Taken
  unfolding dispatch answer handle_healthz is_health
  serve_http-cases = elim (Bool-cases (d.clean q.escaped_path == q.escaped_path)) [
    | inr other ↦ inl (inl (other, settled (moved (d.clean q.escaped_path)) (rw other refl)))
    | inl clean ↦ elim (Bool-cases (is_health q.request.method (segments_of d q))) [
      | inl healthy ↦ inl (
          inr (
            inl (
              health_path (segments_of d q) (and_right _ _ healthy),
              and_left _ _ healthy,
              settled health (rw (clean, healthy) refl),
            )))
      | inr plain ↦
          routed (find (entries d) q.request.method (segments_of d q)) refl (rw (clean, plain) refl)
    ]
  ]
