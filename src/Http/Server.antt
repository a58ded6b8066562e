-- ===== src/Http/Server.antt =====
-- `ServeHTTP` of server.go: every request to the daemon, from its method and path to the reply.
pub mod Cases
pub mod Methods
pub mod Guarded
pub mod Admins
pub mod Reads
pub mod Every
use starfighter_workflow.Db.Exec.{Prog, ret}
use starfighter_workflow.Auth.{Bcrypt}
use starfighter_workflow.Web.{Site, handler}
use starfighter_workflow.Http.{Method, untouched, health_text, location, Reply, done}
use starfighter_workflow.Http.Routes.{serve}
use starfighter_workflow.Http.Mux.{
  Incoming, Decoders, Endpoint, moved, health, json, frontend, dispatch,
}

unfoldable handle_healthz : Prog Reply Reply
handle_healthz = ret (done 200 untouched health_text)

-- `site_for` is the frontend as the file server gives it to a method
module _ (bcrypt : Bcrypt) (d : Decoders) (site_for : Method → Site Reply) where
  unfoldable answer : Incoming → Endpoint → Prog Reply Reply
  unfolding handle_healthz
  answer q (moved path) = ret (done 301 untouched (location path))
  answer q health = handle_healthz
  answer q (json route) = serve bcrypt d.host_of route q.request
  answer q frontend = ret (handler (site_for q.request.method) q.path)

  unfoldable pub serve_http : Incoming → Prog Reply Reply
  unfolding answer
  serve_http q = answer q (dispatch d q)
