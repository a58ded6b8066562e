-- ===== src/Auth/Logouts.antt =====
-- `Logout` of auth.go, and `Lookup` of the token that it ends.
use starfighter_workflow.Common.{String, ◌≡◌, ap, ◌∙◌, ok, err, and_left}
use starfighter_workflow.Sql.Rows.{delete, first-deleted}
use starfighter_workflow.Db.Exec.{World, run, outcome, IsHealthy}
use starfighter_workflow.Db.Keeps.{Keeps-run}
use starfighter_workflow.Auth.{
  session_not_found, has_token, is_live, delete_sessions, logout, lookup,
}
use starfighter_workflow.Auth.Accounts.{IsSound}
use starfighter_workflow.Auth.Sound.{IsSound-IsKept}
use starfighter_workflow.Auth.Operations.{logout-Keeps}
use starfighter_workflow.Auth.Sessions.{lookup_refused}

logout-gone :
    (token : String) (w : World)
    → IsHealthy w
    → outcome (logout token) w
      ≡ (ok tt, record w.db { sessions = delete (has_token token) w.db.sessions })
unfolding logout delete_sessions
logout-gone token w healthy = rw (healthy w.tick, run)

-- In sound accounts, after a `Logout` with no failing statement a `Lookup` of its token, with no
-- failing statement and at any time, is refused and changes nothing.
pub logout-lookup :
    (token : String) (w next : World)
    → IsHealthy w
    → IsHealthy next
    → IsSound w.db
    → next.db ≡ (outcome (logout token) w).1
    → outcome (lookup token) next ≡ (err session_not_found, next.db)
logout-lookup token w next healthy next_healthy sound same =
    lookup_refused token next next_healthy
      (rw same (Keeps-run (logout-Keeps IsSound IsSound-IsKept token) w sound))
      (rw (same ∙ ap (λ o. o.1) (logout-gone token w healthy)) (
        first-deleted (is_live token (next.clock next.tick)) (has_token token) w.db.sessions
          (λ x h. and_left _ _ h)))
