-- ===== src/Daemon/Stop.antt =====
-- The end of main.go: what stops the daemon, and how the process exits.
use starfighter_workflow.Common.{ℕ, ◌-◌, String, Bool, Option, none, some, ◌≡◌, refl, ◌↔◌, arith}
use starfighter_workflow.Config.{Environment, Machine}
use starfighter_workflow.Config.Reload.{PathLaws}
use starfighter_workflow.Db.Migrations.{Session, Setting}
use starfighter_workflow.Daemon.Start.{
  Start, version_printed, exited, killed, serving, start, IsReady, start-IsReady,
}

-- what the select of main waits for: SIGINT or SIGTERM, or an error of ListenAndServe
pub data Stop : Type 0 where
  signal server_error : Stop

-- Both cases log, shut the server down and return from main.
unfoldable pub exit_status : Stop → ℕ
exit_status signal = 0
exit_status server_error = 0

-- the deferred `Close` of the database
abbrev close : {S : Type 0} → Session S → Session S
close s = record s { connections = s.connections - 1 }

abbrev close_all : {S : Type 0} → Option (Session S) → Option (Session S)
close_all none = none
close_all (some s) = some (close s)

-- the exit status, `none` for a process that was killed, and the session that is left
unfoldable pub stop :
    {S : Type 0} → Stop → Start × Option (Session S) → Option ℕ × Option (Session S)
unfolding exit_status
stop why (version_printed, o) = (some 0, o)
stop why (exited, o) = (some 1, o)
stop why (killed, o) = (none, o)
stop why (serving cfg, o) = (some (exit_status why), close_all o)

module _ {S : Type 0} (env : Environment) (fault : ℕ → Bool) (z : Setting S)
    (session_at : String → Session S) where
  unfoldable pub main :
      (path : String) → (show_version : Bool) → Machine → Stop → Option ℕ × Option (Session S)
  main path show_version m why = stop why (start env fault z session_at path show_version m)

-- no handle is left open
abbrev pub IsClosed : {S : Type 0} → Option (Session S) → Type 0
IsClosed none = Unit
IsClosed (some s) = s.connections ≡ 0

module _ {S : Type 0} (env : Environment) (fault : ℕ → Bool) (z : Setting S)
    (session_at : String → Session S) where
  stop-IsClosed :
      (why : Stop) (r : Start × Option (Session S))
      → IsReady env fault z session_at r
      → IsClosed (stop why r).1
  unfolding stop
  stop-IsClosed why (version_printed, o) h = rw h tt
  stop-IsClosed why (exited, none) h = tt
  stop-IsClosed why (exited, some s) h = h
  stop-IsClosed why (killed, o) h = rw h tt
  stop-IsClosed why (serving cfg, some s) (valid, applied, h) = rw h refl
  stop-IsClosed why (serving cfg, none) h = absurd h

stop-failed :
    {S : Type 0} (why : Stop) (r : Start × Option (Session S))
    → ((stop why r).0 ≡ some 1) ↔ (r.0 ≡ exited)
unfolding stop exit_status
stop-failed why (version_printed, o) = (λ h. absurd (ground arith), λ h. absurd (cc))
stop-failed why (exited, o) = (λ h. refl, λ h. refl)
stop-failed why (killed, o) = (λ h. absurd (ground arith), λ h. absurd (cc))
stop-failed signal (serving cfg, o) = (λ h. absurd (ground arith), λ h. absurd (cc))
stop-failed server_error (serving cfg, o) = (λ h. absurd (ground arith), λ h. absurd (cc))

stop-same : {S : Type 0} (r : Start × Option (Session S)) → stop server_error r ≡ stop signal r
unfolding stop exit_status
stop-same (version_printed, o) = refl
stop-same (exited, o) = refl
stop-same (killed, o) = refl
stop-same (serving cfg, o) = refl

-- Whatever fails, from data directories with no open handle and given the laws of `filepath.Clean`:
-- however the process ends, no handle of the database is left open; it exits with status 1 exactly
-- if its start failed, over the configuration or the database; and it exits after an error of the
-- server, such as an address in use, as it does after a signal.
pub main-IsClosed :
    {S : Type 0} (env : Environment) (fault : ℕ → Bool) (z : Setting S)
    (session_at : String → Session S) (path : String) (show_version : Bool) (m : Machine)
    (why : Stop)
    → PathLaws env.library
    → ((dir : String) → (session_at dir).connections ≡ 0)
    → IsClosed (main env fault z session_at path show_version m why).1
      × (((main env fault z session_at path show_version m why).0 ≡ some 1)
          ↔ ((start env fault z session_at path show_version m).0 ≡ exited))
      × (main env fault z session_at path show_version m server_error
          ≡ main env fault z session_at path show_version m signal)
unfolding main
main-IsClosed env fault z session_at path show_version m why laws unused =
    let started = start env fault z session_at path show_version m in
    (
      stop-IsClosed env fault z session_at why started
          (start-IsReady env fault z session_at path show_version m laws unused),
      stop-failed why started,
      stop-same started,
    )
