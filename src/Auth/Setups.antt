-- ===== src/Auth/Setups.antt =====
-- A schedule of two requests to `handleSetup`, which counts the users in one statement and creates
-- the admin in later ones.
use mathlib.Core.List.{map}
use starfighter_workflow.Common.{
  ◌≡◌, refl, false, none, some, [], ◌∷◌, trim_space, trim_left, trim_right, is_space,
}
use starfighter_workflow.Sql.Rows.{first, count}
use starfighter_workflow.Sql.Collate.{nocase_eq, fold, same_codes, lower}
use starfighter_workflow.Db.{empty}
use starfighter_workflow.Db.Exec.{World, commit_if}
use starfighter_workflow.Db.Threads.{interleave}
use starfighter_workflow.Auth.{
  or_missing, count_users, create_user, create_checked, insert_user, valid_role, login,
  count_admins_of,
}
use starfighter_workflow.Http.{HttpRequest, post}
use starfighter_workflow.Http.Handlers.{SetupReq, handle_setup, decoded}
use starfighter_workflow.Tests.Shop.{day, plain}

abbrev first_day : World
first_day = record day { db = empty }

abbrev visit : HttpRequest
visit = record {
  method = post;
  cookie = none;
  authorization = "";
  origin = "";
  host = "shop";
  over_tls = false;
  forwarded_proto = "";
}

abbrev owner : SetupReq
owner = record { username = "ada"; password = "secret88"; display_name = "" }

abbrev stranger : SetupReq
stranger = record { username = "eve"; password = "secret99"; display_name = "" }

-- both requests count no users before either creates one: two admins
both-set_up :
    count_admins_of
      (interleave
        (0 ∷ 1 ∷ 0 ∷ 0 ∷ 0 ∷ 1 ∷ 1 ∷ 1 ∷ [])
        (map (λ body. handle_setup plain (some body) visit) (owner ∷ stranger ∷ []))
        first_day).1.db
    ≡ 2
unfolding handle_setup decoded count_users create_user create_checked or_missing insert_user
    valid_role login commit_if trim_space trim_left trim_right is_space first count nocase_eq fold
    same_codes lower interleave count_admins_of
both-set_up = refl
