-- ===== src/Tests/AuthRuns.antt =====
-- Runs of accounts, sessions and the whole system on the small database.
use mathlib.Core.List.{map}
use starfighter_workflow.Common.{
  refl, trim_space, none, some, ok, err, ◌+◌, ℕ, pos, ◌≡◌, some, List, [], ◌∷◌, arith,
}
use starfighter_workflow.Sql.Rows.{count}
use starfighter_workflow.Db.Exec.{World, outcome, run}
use starfighter_workflow.Db.Threads.{interleave}
use starfighter_workflow.Auth.{lookup, delete_by_id, change_role, count_admins_of}
use starfighter_workflow.Auth.Admins.{
  HasAdmin, AreUnique, delete_by_id-HasAdmin, change_role-HasAdmin,
}
use starfighter_workflow.Auth.Sessions.{lookup_spec, lookup-lookup_spec}
use starfighter_workflow.Auth.{change_password}
use starfighter_workflow.Auth.Passwords.{change_password-login}
use starfighter_workflow.Auth.Logouts.{logout-lookup}
use starfighter_workflow.Auth.Purges.{purge_expired-lookup}
use starfighter_workflow.Auth.{purge_expired}
use starfighter_workflow.Auth.{logout, session_not_found, has_name, has_token, scan_user}
use starfighter_workflow.Auth as Accounting
use starfighter_workflow.Auth.Token.{encode, digit, char_at}
use starfighter_workflow.Auth.Logins.{login-lookup}
use starfighter_workflow.Sql.Collate.{nocase_eq, fold, same_codes, lower}
use starfighter_workflow.Sql.Rows.{first}
use starfighter_workflow.System.{Call, claim, delete_user, login, create_user, transition, perform}
use starfighter_workflow.System.Sound.{IsSound}
use starfighter_workflow.System.Interleaving.{interleave-IsSound}
use starfighter_workflow.Auth.Enrols.{enrol_spec, create_user-enrol_spec}
use starfighter_workflow.Auth.Deletes.{delete_spec, delete_by_id-delete_spec, delete_by_id-lookup}
use starfighter_workflow.Common.{◌=ℤ◌, true, ap, ◌∙◌}
use starfighter_workflow.Tests.Shop.{bobs_session, plain-compare}
use starfighter_workflow.Tests.Shop.{
  day, day-IsHealthy, ada, shop, shop-accounts, shop-IsSound, plain,
}

abbrev day_calls : List Call
day_calls =
    claim (pos 1) (pos 2)
    ∷ delete_user (pos 2)
    ∷ login "ADA" "h1"
    ∷ create_user "cy" "secret88" "user" "Cy"
    ∷ transition (pos 2) "completed"
    ∷ []

abbrev day_schedule : List ℕ
day_schedule = 0 ∷ 1 ∷ 2 ∷ 3 ∷ 4 ∷ 1 ∷ 0 ∷ 4 ∷ 1 ∷ 3 ∷ 2 ∷ 2 ∷ 0 ∷ 4 ∷ 3 ∷ 2 ∷ 4 ∷ 2 ∷ []

interleave-IsSound_example :
    IsSound (interleave day_schedule (map (perform plain) day_calls) day).1.db
interleave-IsSound_example = interleave-IsSound plain day_calls day_schedule day shop-IsSound

shop-HasAdmin : HasAdmin shop
unfolding count_admins_of count
shop-HasAdmin = omega arith

shop-AreUnique : AreUnique shop
shop-AreUnique id = shop-accounts.keys.unique id

delete_by_id-HasAdmin_example : HasAdmin (run (delete_by_id (pos 2)) day).1.db
delete_by_id-HasAdmin_example = delete_by_id-HasAdmin (pos 2) day shop-AreUnique shop-HasAdmin

change_role-HasAdmin_example : HasAdmin (run (change_role (pos 1) "user") day).1.db
change_role-HasAdmin_example = change_role-HasAdmin (pos 1) "user" day shop-AreUnique shop-HasAdmin

lookup-lookup_spec_example : outcome (lookup "t") day ≡ lookup_spec "t" 40 shop
lookup-lookup_spec_example = lookup-lookup_spec "t" day day-IsHealthy shop-accounts

ada_named : first (has_name (trim_space " ADA")) shop.users ≡ some ada
unfolding first trim_space nocase_eq fold same_codes lower
ada_named = refl

unused_token : first (has_token (encode (7 ∷ []))) shop.sessions ≡ none
unfolding first encode digit char_at
unused_token = refl

-- an hour after Ada's login
abbrev later : World
later = record day {
  db = (outcome (Accounting.login plain " ADA" "h1") day).1;
  clock = λ n. ◌+◌ 3600 n;
}

login-lookup_example :
    (outcome (lookup (encode (7 ∷ []))) later).0
    ≡ ok (scan_user (record ada { last_login_at = some 42 }))
login-lookup_example =
    login-lookup plain " ADA" "h1" day day-IsHealthy shop-accounts ada_named refl refl unused_token
      later day-IsHealthy refl (omega arith)

-- a moment after Ada has changed her password
abbrev renewed : World
renewed = record day { db = (outcome (change_password plain (pos 1) "new secret") day).1 }

change_password-login_example :
    ((outcome (change_password plain (pos 1) "new secret") day).0 ≡ ok tt)
    × ((outcome (Accounting.login plain " ADA" "new secret") renewed).0
        ≡ ok (encode (7 ∷ []), scan_user (record ada { last_login_at = none })))
change_password-login_example =
    change_password-login plain plain-compare " ADA" "new secret" day renewed day-IsHealthy
      day-IsHealthy shop-accounts {u = ada} ada_named refl {hash = "new secret"} refl refl
      {raw = 7 ∷ []} refl unused_token

-- a moment after the logout of Bob's session
abbrev gone : World
gone = record day { db = (outcome (logout "t") day).1 }

logout-lookup_example : outcome (lookup "t") gone ≡ (err session_not_found, gone.db)
logout-lookup_example = logout-lookup "t" day gone day-IsHealthy day-IsHealthy shop-accounts refl

-- the night's purge, when Cy's session is over and Bob's is not
abbrev night : World
night = record day { clock = λ n. ◌+◌ 95 n }

abbrev cleaned : World
cleaned = record night { db = (outcome purge_expired night).1 }

purge_expired-lookup_example : (outcome (lookup "t") cleaned).0 ≡ (lookup_spec "t" 95 shop).0
purge_expired-lookup_example =
    purge_expired-lookup "t" night cleaned day-IsHealthy day-IsHealthy shop-accounts refl
      (omega arith)

bob_goes : (delete_spec (pos 2) shop).0 ≡ ok tt
unfolding first count_admins_of count ◌=ℤ◌
bob_goes = refl

bob_can_go : (outcome (delete_by_id (pos 2)) day).0 ≡ ok tt
bob_can_go = ap (λ o. o.0) (delete_by_id-delete_spec (pos 2) day day-IsHealthy) ∙ bob_goes

-- the morning after
abbrev after_bob : World
after_bob = record day { db = (outcome (delete_by_id (pos 2)) day).1 }

bobs_token : first (has_token "t") shop.sessions ≡ some bobs_session
unfolding first
bobs_token = refl

bob_owns : (bobs_session.user_id =ℤ pos 2) ≡ true
unfolding ◌=ℤ◌
bob_owns = refl

delete_by_id-lookup_example : outcome (lookup "t") after_bob ≡ (err session_not_found, after_bob.db)
delete_by_id-lookup_example =
    delete_by_id-lookup (pos 2) "t" bobs_session day after_bob day-IsHealthy day-IsHealthy
      shop-accounts bob_can_go bobs_token bob_owns refl

-- a new account
create_user-enrol_spec_example :
    outcome (Accounting.create_user plain "DEE " "secret88" "user" "Dee") day
    ≡ enrol_spec "DEE " "secret88" "user" "Dee" 41 (some "secret88") shop
create_user-enrol_spec_example =
    create_user-enrol_spec plain day day-IsHealthy "DEE " "secret88" "user" "Dee"
