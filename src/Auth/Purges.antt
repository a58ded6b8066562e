-- ===== src/Auth/Purges.antt =====
-- `PurgeExpired` of auth.go, and `Lookup` after it.
use starfighter_workflow.Common.{
  ℕ, suc, ◌≤◌, String, Bool, true, false, ◌≡◌, ap, ◌∙◌, ltb, leb, arith, ok, Option-cases,
  Bool-cases, inl, inr,
}
use starfighter_workflow.Sql.Rows.{
  first, delete, count-not_found, delete_zero, first_kept, first_dropped,
}
use starfighter_workflow.Db.{Db, SessionRow}
use starfighter_workflow.Db.Exec.{World, run, outcome, IsHealthy}
use starfighter_workflow.Db.Keeps.{Keeps-run}
use starfighter_workflow.Auth.{has_token, delete_sessions, purge_expired, lookup}
use starfighter_workflow.Auth.Accounts.{IsSound}
use starfighter_workflow.Auth.Sound.{IsSound-IsKept}
use starfighter_workflow.Auth.Operations.{purge_expired-Keeps}
use starfighter_workflow.Auth.Sessions.{lookup_spec, lookup-lookup_spec}

abbrev is_dead : ℕ → SessionRow → Bool
is_dead t s = leb s.expires_at t

abbrev purged : ℕ → Db → Db
purged t d = record d { sessions = delete (is_dead t) d.sessions }

purge_expired-purged :
    (w : World) → IsHealthy w → outcome purge_expired w ≡ (ok tt, purged (w.clock w.tick) w.db)
unfolding purge_expired delete_sessions
purge_expired-purged w healthy = rw (healthy (suc w.tick), run)

later_dead : (t later e : ℕ) → t ≤ later → leb e t ≡ true → ltb later e ≡ false
later_dead t later e le dead = ground arith

-- a session that is expired at `t` is no answer at `later`
lookup_spec-purged :
    (token : String) (t later : ℕ) (d : Db)
    → IsSound d
    → t ≤ later
    → (lookup_spec token later (purged t d)).0 ≡ (lookup_spec token later d).0
unfolding lookup_spec
lookup_spec-purged token t later d sound le =
    elim (Option-cases (first (has_token token) d.sessions)) [
      | inl missing ↦ rw (
        missing,
        delete_zero (has_token token) (is_dead t) d.sessions
            (count-not_found (has_token token) d.sessions missing),
      )
      | inr (s, found) ↦ elim (Bool-cases (is_dead t s)) [
        | inr alive ↦
            rw (found, first_kept (has_token token) (is_dead t) d.sessions found alive)
              (elim (Bool-cases (ltb later s.expires_at)) [
                | inl fresh ↦ rw fresh
                | inr stale ↦ rw stale
              ])
        | inl dead ↦
            rw
              (
                found,
                first_dropped (has_token token) (is_dead t) d.sessions (sound.tokens token) found
                    dead,
              )
              (rw (later_dead t later s.expires_at le dead))
      ]
    ]

-- In sound accounts, a `PurgeExpired` with no failing statement changes no answer of a `Lookup` that
-- is made no earlier, with no failing statement.
pub purge_expired-lookup :
    (token : String) (w next : World)
    → IsHealthy w
    → IsHealthy next
    → IsSound w.db
    → next.db ≡ (outcome purge_expired w).1
    → w.clock w.tick ≤ next.clock next.tick
    → (outcome (lookup token) next).0 ≡ (lookup_spec token (next.clock next.tick) w.db).0
purge_expired-lookup token w next healthy next_healthy sound same later =
    ap (λ o. o.0)
      (lookup-lookup_spec token next next_healthy
        (rw same (Keeps-run (purge_expired-Keeps IsSound IsSound-IsKept) w sound)))
    ∙ ap (λ d. (lookup_spec token (next.clock next.tick) d).0)
        (same ∙ ap (λ o. o.1) (purge_expired-purged w healthy))
    ∙ lookup_spec-purged token (w.clock w.tick) (next.clock next.tick) w.db sound later
