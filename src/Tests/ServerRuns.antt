-- ===== src/Tests/ServerRuns.antt =====
-- Requests to the small database as they come in, from their paths.
use mathlib.Core.List.{map, Memᴰ}
use mathlib.Core.Bool.{false≢true}
use starfighter_workflow.Common.{
  String, true, false, none, some, List, [], ◌∷◌, ◌≡◌, ◌≢◌, refl, ap, eq_iff, ◌⊎◌, ◌↔◌, ok, arith,
}
use starfighter_workflow.Common.Decimal.{parse_int}
use starfighter_workflow.Sql.Rows.{first}
use starfighter_workflow.Db.Exec.{raise, outcome}
use starfighter_workflow.Db.Threads.{interleave}
use starfighter_workflow.Auth.{scan_user, is_live}
use starfighter_workflow.Auth.Sessions.{lookup_spec}
use starfighter_workflow.Http.Guards.{IsTurnedAway}
use starfighter_workflow.Http.{delete_method}
use starfighter_workflow.Http.Server.Admins.{is_admin_path, serve_http-IsTurnedAway}
use starfighter_workflow.Common.{ℕ, zero, suc, ◌<◌, ◌≤◌, ◌++◌}
use starfighter_workflow.Db.Threads.{running}
use starfighter_workflow.Db.Progress.{turns}
use starfighter_workflow.Daemon.Serving.{live, live-IsSound}
use starfighter_workflow.System.Sound.{IsSound}
use starfighter_workflow.Tests.Shop.{shop-IsSound}
use starfighter_workflow.Http.Server.Every.{interleave-serve_http}
use starfighter_workflow.Web.{Site}
use starfighter_workflow.Http.{
  Method, get_method, post, Reply, failed, done, untouched, health_text, extract_token,
  after_prefix, is_read,
}
use starfighter_workflow.Http.Guards.{IsRefused}
use starfighter_workflow.Http.Routes.{claim_request}
use starfighter_workflow.Http.Mux.{
  Incoming, Decoders, Entry, entries, find, match_entry, match, pattern_of, segments,
}
use starfighter_workflow.Http.Mux.Unique.{find_iff}
use starfighter_workflow.Http.Server.{serve_http}
use starfighter_workflow.Http.Server.Cases.{IsStatic, segments_of}
use starfighter_workflow.Http.Server.Guarded.{is_public, serve_http-IsRefused, serve_http-foreign}
use starfighter_workflow.Http.Server.Reads.{IsUntouched, reads-IsUntouched}
use starfighter_workflow.Tests.Shop.{day, day-IsHealthy, shop, shop-accounts, plain, cy}
use starfighter_workflow.Common.{◌=ℤ◌}

abbrev pub decoders : Decoders
decoders = record {
  clean = λ path. path;
  unescape = λ s. s;
  host_of = λ origin. after_prefix "https://" origin;
  setup_req = λ body. none;
  login_req = λ body. none;
  password_req = λ body. some body;
  create_user_req = λ body. none;
  role_req = λ body. some body;
  create_request_req = λ body. none;
  transition_req = λ body. some body;
  priority_req = λ body. some body;
}

-- no file but "/"
abbrev site_for : Method → Site Reply
site_for m = record { opens = λ path. false; file_server = λ path. done 200 untouched health_text }

abbrev incoming : Method → (path token origin : String) → Incoming
incoming m path token origin = record {
  request = record {
    method = m;
    cookie = some token;
    authorization = "";
    origin = origin;
    host = "shop";
    over_tls = true;
    forwarded_proto = "";
  };
  escaped_path = path;
  path = path;
  query = λ name. "";
  body = "";
}

abbrev claim_path : String
claim_path = "/api/v1/requests/1/claim"

abbrev claim_segments : List String
claim_segments = "api" ∷ "v1" ∷ "requests" ∷ "1" ∷ "claim" ∷ []

abbrev claim_entry : Entry
claim_entry = record {
  method = post;
  pattern = "/api/v1/requests/{id}/claim";
  route = λ id q. claim_request (parse_int id);
}

find_iff_example : (find (entries decoders) post claim_segments ≡ some ("1", claim_entry)) ↔ (
    Memᴰ claim_entry (entries decoders) × (match_entry claim_entry post claim_segments ≡ some "1"))
find_iff_example = find_iff decoders post claim_segments "1" claim_entry

claim_found : find (entries decoders) post claim_segments ≡ some ("1", claim_entry)
unfolding find entries match_entry match pattern_of
claim_found = refl

abbrev stale_claim : Incoming
stale_claim = incoming post claim_path "s" "https://shop"

stale_claim-private : is_public (segments_of decoders stale_claim) ≡ false
unfolding match pattern_of segments
stale_claim-private = refl

stale_claim-dead : first (is_live (extract_token stale_claim.request) 40) shop.sessions ≡ none
unfolding first extract_token
stale_claim-dead = refl

serve_http-IsRefused_example :
    (IsRefused (outcome (serve_http plain decoders site_for stale_claim) day).0
      ⊎ IsStatic plain decoders site_for stale_claim)
    × ((outcome (serve_http plain decoders site_for stale_claim) day).1 ≡ shop)
serve_http-IsRefused_example =
    serve_http-IsRefused plain decoders site_for stale_claim day day-IsHealthy shop-accounts
      stale_claim-private stale_claim-dead

abbrev evil_claim : Incoming
evil_claim = incoming post claim_path "t" "https://evil"

claim-is_write : is_read post ≡ false
unfolding is_read
claim-is_write = refl

evil_origin : decoders.host_of "https://evil" ≢ some "shop"
unfolding after_prefix
evil_origin e =
    absurd (false≢true ((eq_iff "evil" "shop").1 (ap (λ o. elim o [ none ↦ "" | some s ↦ s ]) e)))

serve_http-foreign_example :
    (serve_http plain decoders site_for evil_claim ≡ raise (failed 403))
    ⊎ IsStatic plain decoders site_for evil_claim
serve_http-foreign_example =
    serve_http-foreign plain decoders site_for evil_claim claim-is_write refl evil_origin

-- Cy is logged in and no admin
abbrev cys_delete : Incoming
cys_delete = incoming delete_method "/api/v1/users/1" "c" "https://shop"

cy_looks_up : (lookup_spec (extract_token cys_delete.request) 40 shop).0 ≡ ok (scan_user cy)
unfolding lookup_spec first extract_token ◌=ℤ◌
cy_looks_up = refl

cys_delete-is_admin_path : is_admin_path (segments_of decoders cys_delete) ≡ true
unfolding match pattern_of segments
cys_delete-is_admin_path = refl

serve_http-IsTurnedAway_example :
    IsTurnedAway shop
      (lookup_spec (extract_token cys_delete.request) 40 shop).1
      (outcome (serve_http plain decoders site_for cys_delete) day)
    ⊎ (IsStatic plain decoders site_for cys_delete
        × ((outcome (serve_http plain decoders site_for cys_delete) day).1 ≡ shop))
serve_http-IsTurnedAway_example =
    serve_http-IsTurnedAway plain decoders site_for cys_delete day {u = scan_user cy} day-IsHealthy
      shop-accounts cys_delete-is_admin_path cy_looks_up refl

abbrev two_reads : List Incoming
two_reads =
    incoming get_method "/api/v1/requests" "t" "" ∷ incoming get_method "/api/v1/users" "c" "" ∷ []

get-is_read : is_read get_method ≡ true
unfolding is_read
get-is_read = refl

reads-IsUntouched_example :
    IsUntouched shop
      (interleave
        (0 ∷ 1 ∷ 0 ∷ 1 ∷ 0 ∷ 1 ∷ 0 ∷ [])
        (map (serve_http plain decoders site_for) two_reads)
        day).1.db
reads-IsUntouched_example =
    reads-IsUntouched plain decoders site_for two_reads (0 ∷ 1 ∷ 0 ∷ 1 ∷ 0 ∷ 1 ∷ 0 ∷ []) day
      (get-is_read, (get-is_read, tt))

-- three requests, and a schedule that gives each of them ten turns
abbrev crowd : List Incoming
crowd = stale_claim ∷ cys_delete ∷ evil_claim ∷ []

abbrev round : List ℕ
round = 2 ∷ 0 ∷ 1 ∷ 1 ∷ 0 ∷ 2 ∷ []

abbrev rounds : List ℕ
rounds = round ++ round ++ round ++ round ++ round

rounds-turns : (i : ℕ) → i < 3 → 10 ≤ turns i rounds
unfolding turns
rounds-turns zero h = omega arith
rounds-turns (suc zero) h = omega arith
rounds-turns (suc (suc zero)) h = omega arith
rounds-turns (suc (suc (suc i))) h = absurd (omega (arith, h))

interleave-serve_http_example :
    running (interleave rounds (map (serve_http plain decoders site_for) crowd) day).0 ≡ 0
interleave-serve_http_example =
    interleave-serve_http plain decoders site_for crowd rounds day rounds-turns

-- v2 starts while the purge and three requests take turns
live-IsSound_example :
    IsSound
      (live plain decoders site_for "v2" 1 crowd
        (0 ∷ 1 ∷ 2 ∷ 3 ∷ 0 ∷ 1 ∷ 2 ∷ 1 ∷ 2 ∷ 1 ∷ [])
        day).db
live-IsSound_example =
    live-IsSound plain decoders site_for "v2" 1 crowd (0 ∷ 1 ∷ 2 ∷ 3 ∷ 0 ∷ 1 ∷ 2 ∷ 1 ∷ 2 ∷ 1 ∷ [])
      day shop-IsSound
