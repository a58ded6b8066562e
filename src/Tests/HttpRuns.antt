-- ===== src/Tests/HttpRuns.antt =====
-- Requests to the small database, and boots of the daemon.
use starfighter_workflow.Common.{pos, ◌=ℤ◌, String, true, false, ◌≡◌, refl, Option, some, ok}
use starfighter_workflow.Sql.Rows.{first}
use starfighter_workflow.Db.Exec.{outcome}
use starfighter_workflow.Auth.{scan_user}
use starfighter_workflow.Http.{HttpRequest, post, extract_token, after_prefix}
use starfighter_workflow.Http.Routes.{serve}
use starfighter_workflow.Daemon.{post_deploy}
use starfighter_workflow.Daemon.Deploys.{deploy_spec, post_deploy-deploy_spec}
use starfighter_workflow.Http.Replies.{moving, reply_spec}
use starfighter_workflow.Http.Served.{route_of, serve-reply_spec}
use starfighter_workflow.Http.Admitted.{slid}
use starfighter_workflow.Http.Managed.{appointing, managing, manage_spec_at, serve-manage_spec}
use starfighter_workflow.Db.{is_user}
use starfighter_workflow.Auth.{has_token, session_ttl}
use starfighter_workflow.Auth.Sessions.{extend}
use starfighter_workflow.Common.{ltb, ◌==◌, ◌+◌}
use starfighter_workflow.Tests.Shop.{bob, bobs_session, shop-requests}
use starfighter_workflow.Tests.Shop.{day, day-IsHealthy, shop, shop-accounts, plain}

-- the host of an address that is `https://` and the host
abbrev host_of : String → Option String
host_of origin = after_prefix "https://" origin

abbrev with_cookie : String → String → HttpRequest
with_cookie token origin = record {
  method = post;
  cookie = some token;
  authorization = "";
  origin = origin;
  host = "shop";
  over_tls = false;
  forwarded_proto = "https";
}

post_deploy-deploy_spec_example :
    outcome (post_deploy "v2") day ≡ (ok tt, deploy_spec "v2" 41 42 shop)
post_deploy-deploy_spec_example = post_deploy-deploy_spec "v2" day day-IsHealthy

bobs_token : (extract_token (with_cookie "t" "https://shop") == "") ≡ false
unfolding extract_token
bobs_token = refl

bobs_session_found :
    first (has_token (extract_token (with_cookie "t" "https://shop"))) shop.sessions
    ≡ some bobs_session
unfolding first extract_token
bobs_session_found = refl

bobs_session_live : ltb 40 bobs_session.expires_at ≡ true
bobs_session_live = refl

bob_found : first (is_user bobs_session.user_id) shop.users ≡ some bob
unfolding first ◌=ℤ◌
bob_found = refl

own_host : host_of "https://shop" ≡ some "shop"
unfolding after_prefix
own_host = refl

abbrev bob_asks : HttpRequest
bob_asks = with_cookie "t" "https://shop"

-- Bob completes the request that he has in repair
serve-reply_spec_example :
    outcome (serve plain host_of (route_of (moving (some "completed")) (some (pos 2))) bob_asks) day
    ≡ reply_spec
        (moving (some "completed"))
        (scan_user bob)
        43
        44
        (some (pos 2))
        (extend (extract_token bob_asks) (40 + session_ttl) shop)
serve-reply_spec_example =
    serve-reply_spec (moving (some "completed")) (some (pos 2)) bob_asks day day-IsHealthy
      shop-accounts shop-requests {s = bobs_session} {u = bob} bobs_token bobs_session_found
      bobs_session_live bob_found plain host_of refl own_host

-- Bob, who is an admin, makes Cy an admin too
serve-manage_spec_example :
    outcome (serve plain host_of (managing (appointing (some (pos 3)) (some "admin"))) bob_asks) day
    ≡ manage_spec_at plain (appointing (some (pos 3)) (some "admin")) (slid bob_asks day)
serve-manage_spec_example =
    serve-manage_spec plain host_of (appointing (some (pos 3)) (some "admin")) bob_asks day
      day-IsHealthy shop-accounts {s = bobs_session} {u = bob} bobs_token bobs_session_found
      bobs_session_live bob_found refl refl own_host
