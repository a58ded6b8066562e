-- ===== src/Daemon/Serving.antt =====
-- The daemon of cmd/sfworkflowd/main.go while it runs: the gate, and then the hourly purge beside the
-- requests.
use mathlib.Core.List.{map}
use starfighter_workflow.Common.{
  ℕ, zero, suc, String, Option, none, some, List, [], ◌∷◌, All, Result, ok, err,
}
use starfighter_workflow.Db.{Db}
use starfighter_workflow.Db.Exec.{World, Prog, ret, inspect, run}
use starfighter_workflow.Db.Keeps.{
  Keeps, returns, Keeps-bind, Keeps-inspect, Keeps-now, Keeps-statement, Keeps-run, keeps_rules,
}
use starfighter_workflow.Db.Threads.{interleave, interleave-Keeps}
use starfighter_workflow.Auth.{Bcrypt}
use starfighter_workflow.Auth as AuthService
use starfighter_workflow.Auth.Operations as AuthOperations
use starfighter_workflow.Web.{Site}
use starfighter_workflow.Http.{Method, Reply}
use starfighter_workflow.Http.Mux.{Incoming, Decoders}
use starfighter_workflow.Http.Server.{serve_http}
use starfighter_workflow.Http.Server.Every.{serve_http-Keeps}
use starfighter_workflow.System.{discard}
use starfighter_workflow.System.Interleaving.{Keeps-discard}
use starfighter_workflow.System.Sound.{IsSound, IsSound-AuthKept}
use starfighter_workflow.Daemon.{get, set, upsert, record_version, after_read, post_deploy}

-- the purge goroutine over `n` ticks of its timer; an error is only logged
unfoldable pub purge_loop : ℕ → Prog Unit Unit
purge_loop zero = ret tt
purge_loop (suc n) = inspect AuthService.purge_expired (λ r. purge_loop n)

-- the purge and a goroutine for each request
abbrev pub goroutines :
    Bcrypt → Decoders → (Method → Site Reply) → ℕ → List Incoming → List (Prog Unit Unit)
goroutines bcrypt d site_for ticks asked =
    purge_loop ticks ∷ map (λ q. discard (serve_http bcrypt d site_for q)) asked

-- from the gate on, at the version `current`
unfoldable pub live :
    Bcrypt
    → Decoders
    → (Method → Site Reply)
    → (current : String) → (ticks : ℕ) → List Incoming
    → List ℕ
    → World
    → World
live bcrypt d site_for current ticks asked schedule w =
    (interleave schedule (goroutines bcrypt d site_for ticks asked)
      (run (post_deploy current) w).1).1

-- the gate writes no table of the services but sessions
upsert-IsSound :
    (key value : String) (t : ℕ) (d : Db) → IsSound d → IsSound (upsert key value t d).1
unfolding upsert
upsert-IsSound key value t d s = record {
  accounts = record {
    keys = s.accounts.keys;
    names = s.accounts.names;
    roles = s.accounts.roles;
    tokens = s.accounts.tokens;
    owners = s.accounts.owners;
  };
  machines = record { keys = s.machines.keys; names = s.machines.names };
  requests = record { rows = s.requests.rows; keys = s.requests.keys; linked = s.requests.linked };
}

get-Keeps : (key : String) → Keeps IsSound (get key)
unfolding get
get-Keeps key = search keeps_rules

set-Keeps : (key value : String) → Keeps IsSound (set key value)
unfolding set
set-Keeps key value =
    Keeps-bind Keeps-now (λ t. Keeps-statement tt (upsert key value t) (upsert-IsSound key value t))

record_version-Keeps : (current : String) → Keeps IsSound (record_version current)
unfolding record_version
record_version-Keeps current = search (keeps_rules, set-Keeps)

after_read-Keeps :
    (current : String) (r : Result Unit (Option String)) → Keeps IsSound (after_read current r)
unfolding after_read
after_read-Keeps current (err e) = returns tt
after_read-Keeps current (ok none) = record_version-Keeps current
after_read-Keeps current (ok (some prev)) = search (
  keeps_rules,
  AuthOperations.wipe_all_sessions-Keeps IsSound IsSound-AuthKept,
  record_version-Keeps,
)

post_deploy-Keeps : (current : String) → Keeps IsSound (post_deploy current)
unfolding post_deploy
post_deploy-Keeps current = search (keeps_rules, get-Keeps, after_read-Keeps)

purge_loop-Keeps : (n : ℕ) → Keeps IsSound (purge_loop n)
unfolding purge_loop
purge_loop-Keeps zero = returns tt
purge_loop-Keeps (suc n) =
    Keeps-inspect (AuthOperations.purge_expired-Keeps IsSound IsSound-AuthKept)
      (λ r. purge_loop-Keeps n)

module _ (bcrypt : Bcrypt) (d : Decoders) (site_for : Method → Site Reply) where
  served :
      (asked : List Incoming)
      → All (Keeps IsSound) (map (λ q. discard (serve_http bcrypt d site_for q)) asked)
  served [] = tt
  served (q ∷ asked) = (Keeps-discard IsSound (serve_http-Keeps bcrypt d site_for q), served asked)

-- A daemon that starts on a sound database leaves it sound at every moment: after the gate, for any
-- version of the binary, with the hourly purge beside any requests with any methods and paths, under any
-- schedule of their statements, with any failing statements and whatever the clock and the random source give.
pub live-IsSound :
    (bcrypt : Bcrypt) (d : Decoders) (site_for : Method → Site Reply) (current : String) (ticks : ℕ)
    (asked : List Incoming) (schedule : List ℕ) (w : World)
    → IsSound w.db
    → IsSound (live bcrypt d site_for current ticks asked schedule w).db
unfolding live
live-IsSound bcrypt d site_for current ticks asked schedule w s =
    interleave-Keeps IsSound schedule (goroutines bcrypt d site_for ticks asked)
      (run (post_deploy current) w).1 (purge_loop-Keeps ticks, served bcrypt d site_for asked)
      (Keeps-run (post_deploy-Keeps current) w s)
