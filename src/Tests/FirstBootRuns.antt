-- ===== src/Tests/FirstBootRuns.antt =====
-- The first boot with an empty database, and a visit an hour later.
use starfighter_workflow.Common.{
  ◌+◌, pos, String, false, Option, none, some, [], ◌∷◌, ◌≡◌, refl, ◌==◌, trim_space, trim_left,
  trim_right, is_space, ok, err, arith,
}
use starfighter_workflow.Db.{empty}
use starfighter_workflow.Db.Exec.{World, outcome}
use starfighter_workflow.Auth.{scan_user, role_admin}
use starfighter_workflow.Auth.Token.{encode, digit, char_at}
use starfighter_workflow.Http.{
  get_method, post, HttpRequest, failed, done, untouched, extract_token,
}
use starfighter_workflow.Tests.Shop.{day, day-IsHealthy, plain, plain-compare, empty-accounts}
use starfighter_workflow.Http.FirstBoot.{setup-me}
use starfighter_workflow.Auth.{new_user}
use starfighter_workflow.Auth.Logins.{seen_at}
use starfighter_workflow.Db.{UserRow}
use starfighter_workflow.Http.Handlers.{SetupReq}
use starfighter_workflow.Http.Routes.{serve, setup, me}
use starfighter_workflow.Http.{set_to, session, user}
use starfighter_workflow.Common.{is_some}
use starfighter_workflow.Tests.ServerRuns.{decoders}

-- the row that the first setup adds
abbrev boot_admin : UserRow
boot_admin = new_user (trim_space "ada") "secret88" role_admin (trim_space "") 42 (pos 1)

-- the first boot: Ada sets the daemon up
abbrev boot : World
boot = record day { db = empty }

abbrev ada_form : SetupReq
ada_form = record { username = "ada"; password = "secret88"; display_name = "" }

abbrev bare_visit : HttpRequest
bare_visit = record {
  method = post;
  cookie = none;
  authorization = "";
  origin = "";
  host = "shop";
  over_tls = false;
  forwarded_proto = "";
}

abbrev boot_token : String
boot_token = encode (7 ∷ [])

-- an hour later
abbrev hour_later : World
hour_later = record day {
  db = (outcome (serve plain decoders.host_of (setup (some ada_form)) bare_visit) boot).1;
  clock = λ n. ◌+◌ 3600 n;
}

abbrev with_bearer : HttpRequest
with_bearer = record bare_visit { method = get_method; cookie = some boot_token }

ada_given : (trim_space ada_form.username == "") ≡ false
unfolding trim_space trim_left trim_right is_space
ada_given = refl

token_carried : extract_token with_bearer ≡ boot_token
unfolding extract_token encode digit char_at
token_carried = refl

token_given : (boot_token == "") ≡ false
unfolding encode digit char_at
token_given = refl

setup-me_example :
    ((outcome (serve plain decoders.host_of (setup (some ada_form)) bare_visit) boot).0
      ≡ ok (done 201 (set_to boot_token) (session (scan_user boot_admin) boot_token)))
    × ((outcome (serve plain decoders.host_of me with_bearer) hour_later).0
        ≡ ok (done 200 untouched (user (scan_user (seen_at 46 boot_admin)))))
    × ((body : Option SetupReq) (v : HttpRequest)
        → is_some v.cookie ≡ false
        → outcome (serve plain decoders.host_of (setup body) v) hour_later
          ≡ (err (failed 409), hour_later.db))
setup-me_example =
    setup-me plain plain-compare ada_form bare_visit boot day-IsHealthy empty-accounts refl
      ada_given refl {hash = "secret88"} refl {raw = 7 ∷ []} refl decoders.host_of hour_later
      day-IsHealthy refl refl (omega arith) with_bearer token_carried token_given
