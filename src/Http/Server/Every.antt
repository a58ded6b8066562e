-- ===== src/Http/Server/Every.antt =====
-- Every request, whatever its method and path, is answered and keeps the database sound.
use mathlib.Core.List.{map}
use starfighter_workflow.Common.{ℕ, ◌≤◌, ◌<◌, ◌≡◌, List, [], ◌∷◌, All, length, inl, inr}
use starfighter_workflow.Db.Exec.{World}
use starfighter_workflow.Db.Keeps as Invariants
use starfighter_workflow.Db.Keeps.{Keeps}
use starfighter_workflow.Db.Takes as Bounds
use starfighter_workflow.Db.Takes.{Takes}
use starfighter_workflow.Db.Threads.{interleave, running}
use starfighter_workflow.Db.Progress.{turns, interleave-running}
use starfighter_workflow.Auth.{Bcrypt}
use starfighter_workflow.Web.{Site}
use starfighter_workflow.Http.{Method, Reply}
use starfighter_workflow.Http.Requests.{serve-Keeps}
use starfighter_workflow.Http.Progress.{serve-Takes}
use starfighter_workflow.Http.Mux.{Incoming, Decoders}
use starfighter_workflow.Http.Server.{serve_http}
use starfighter_workflow.Http.Server.Cases.{IsStatic-reply, serve_http-cases}
use starfighter_workflow.System.Sound.{IsSound}

module _ (bcrypt : Bcrypt) (d : Decoders) (site_for : Method → Site Reply) where
  pub serve_http-Keeps : (q : Incoming) → Keeps IsSound (serve_http bcrypt d site_for q)
  serve_http-Keeps q = elim (serve_http-cases bcrypt d site_for q) [
    | inl static ↦
        let (reply, same) = IsStatic-reply bcrypt d site_for q static in
        rw same (Invariants.returns reply)
    | inr t ↦ rw t.served (serve-Keeps bcrypt d.host_of (t.entry.route t.id q) q.request)
  ]

  -- A request with any method, path, cookie, origin and body is answered after at most ten atomic
  -- steps, whatever the other requests do between the steps, whichever statements fail and whatever
  -- the clock and the random source give.
  pub serve_http-Takes : (q : Incoming) → Takes 10 (serve_http bcrypt d site_for q)
  serve_http-Takes q = elim (serve_http-cases bcrypt d site_for q) [
    | inl static ↦
        let (reply, same) = IsStatic-reply bcrypt d site_for q static in
        rw same (Bounds.returns reply)
    | inr t ↦ rw t.served (serve-Takes bcrypt d.host_of (t.entry.route t.id q) q.request)
  ]

  all-Takes : (asked : List Incoming) → All (Takes 10) (map (serve_http bcrypt d site_for) asked)
  all-Takes [] = tt
  all-Takes (q ∷ asked) = (serve_http-Takes q, all-Takes asked)

  -- Any requests with any methods and paths are served at the same time. After a schedule that gives
  -- each of them at least ten turns, in whatever order, every request has been answered, whichever
  -- statements fail and whatever the clock and the random source give.
  pub interleave-serve_http :
      (asked : List Incoming) (schedule : List ℕ) (w : World)
      → ((i : ℕ) → i < length (map (serve_http bcrypt d site_for) asked) → 10 ≤ turns i schedule)
      → running (interleave schedule (map (serve_http bcrypt d site_for) asked) w).0 ≡ 0
  interleave-serve_http asked schedule w enough =
      interleave-running 10 (map (serve_http bcrypt d site_for) asked) schedule w (all-Takes asked)
        enough
