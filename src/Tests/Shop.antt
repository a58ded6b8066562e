-- ===== src/Tests/Shop.antt =====
-- A small database: two admins and a user, of whom two are logged in, a machine, an unclaimed request
-- and one in repair.
use mathlib.Core.Bool.{false≢true}
use starfighter_workflow.Common.{
  ◌+◌, ◌≤◌, ℤ, ◌=ℤ◌, pos, Bool, true, false, none, some, [], ◌∷◌, ◌≡◌, refl, ◌==◌, eq_iff, arith,
}
use starfighter_workflow.Sql.Rows.{first, count}
use starfighter_workflow.Sql.Collate.{nocase_eq, fold, same_codes, lower}
use starfighter_workflow.Common.{ℕ, String, Option, List, sym, ap}
use starfighter_workflow.Db.{empty}
use starfighter_workflow.Db.{Db, UserRow, SessionRow, MachineRow, RequestRow, is_known}
use starfighter_workflow.Db.Exec.{World, IsHealthy}
use starfighter_workflow.Db.Keys.{IsKeyed, IsKeyed-append}
use starfighter_workflow.Db.Unique.{IsNamed-append, IsUnique-append}
use starfighter_workflow.Auth.{valid_role, Bcrypt}
use starfighter_workflow.Auth.Accounts
use starfighter_workflow.Repair.{valid_priority}
use starfighter_workflow.Repair.States.{valid_status, is_terminal}
use starfighter_workflow.Repair.Lifecycle
use starfighter_workflow.Repair.Lifecycle.{IsSoundRow}
use starfighter_workflow.System.Sound.{IsSound}

abbrev pub ada : UserRow
ada = record {
  id = pos 1;
  username = "Ada";
  password_hash = "h1";
  role = "admin";
  display_name = "";
  created_at = 0;
  last_login_at = none;
}

abbrev pub bob : UserRow
bob = record ada { id = pos 2; username = "bob"; password_hash = "h2" }

abbrev pub cy : UserRow
cy = record ada { id = pos 3; username = "cy"; password_hash = "h3"; role = "user" }

abbrev pub bobs_session : SessionRow
bobs_session = record { token = "t"; user_id = pos 2; created_at = 0; expires_at = 100 }

abbrev pub cys_session : SessionRow
cys_session = record { token = "c"; user_id = pos 3; created_at = 0; expires_at = 90 }

abbrev pub pac_man : MachineRow
pac_man = record { id = pos 1; name = "Pac-Man"; created_by = some (pos 1); created_at = 0 }

abbrev pub fresh_request : RequestRow
fresh_request = record {
  id = pos 1;
  machine_id = pos 1;
  problem_summary = "no sound";
  problem_detail = "";
  status = "received";
  priority = "normal";
  assigned_to = none;
  created_by = some (pos 1);
  created_at = 0;
  updated_at = 0;
  closed_at = none;
}

abbrev pub bobs_request : RequestRow
bobs_request = record fresh_request { id = pos 2; status = "in_repair"; assigned_to = some (pos 2) }

abbrev pub shop : Db
shop = record {
  users = ada ∷ bob ∷ cy ∷ [];
  sessions = bobs_session ∷ cys_session ∷ [];
  node_state = [];
  machines = pac_man ∷ [];
  requests = fresh_request ∷ bobs_request ∷ [];
  user_seq = 3;
  machine_seq = 1;
  request_seq = 2;
}

-- the clock starts at 40 and makes one second a step; the random source gives one byte
abbrev pub day : World
day = record {
  db = shop;
  tick = 0;
  fault = λ _. false;
  clock = λ n. ◌+◌ 40 n;
  random = λ _. some (7 ∷ []);
}

pub day-IsHealthy : IsHealthy day
day-IsHealthy n = refl

pub ada_known : is_known shop (some (pos 1)) ≡ true
unfolding first ◌=ℤ◌
ada_known = refl

pub bob_known : is_known shop (some (pos 2)) ≡ true
unfolding first ◌=ℤ◌
bob_known = refl

no_rows : {A : Type 0} (p : A → Bool) → count p [] ≤ 1
unfolding count
no_rows p = omega arith

unkeyed : {A : Type 0} (key : A → ℤ) → IsKeyed key 0 []
unkeyed key = record { unique = λ id. no_rows (λ r. key r =ℤ id); issued = tt }

pub shop-accounts : Accounts.IsSound shop
unfolding valid_role first ◌=ℤ◌ nocase_eq fold same_codes lower
shop-accounts = record {
  keys =
      IsKeyed-append _ _ (ada ∷ bob ∷ []) cy
        (IsKeyed-append _ _ (ada ∷ []) bob (IsKeyed-append _ _ [] ada (unkeyed (λ u. u.id)) refl)
          refl)
        refl;
  names =
      IsNamed-append (λ u. u.username) (ada ∷ bob ∷ []) cy
        (IsNamed-append (λ u. u.username) (ada ∷ []) bob
          (IsNamed-append (λ u. u.username) [] ada (λ s. no_rows (λ u. nocase_eq u.username s))
            refl)
          refl)
        refl;
  roles = (refl, (refl, (refl, tt)));
  tokens =
      IsUnique-append (λ x. x.token) (bobs_session ∷ []) cys_session
        (IsUnique-append (λ x. x.token) [] bobs_session (λ s. no_rows (λ x. x.token == s)) refl)
        refl;
  owners = (refl, (refl, tt));
}

fresh_request-IsSoundRow : IsSoundRow fresh_request
unfolding valid_status is_terminal valid_priority
fresh_request-IsSoundRow = record {
  valid = refl;
  triaged = refl;
  unclaimed = λ _. refl;
  closed = refl;
}

bobs_request-IsSoundRow : IsSoundRow bobs_request
unfolding valid_status is_terminal valid_priority
bobs_request-IsSoundRow = record {
  valid = refl;
  triaged = refl;
  unclaimed = λ e. absurd (false≢true ((eq_iff "in_repair" "received").1 e));
  closed = refl;
}

pub shop-requests : Lifecycle.IsSound shop
unfolding first ◌=ℤ◌
shop-requests = record {
  rows = (fresh_request-IsSoundRow, (bobs_request-IsSoundRow, tt));
  keys =
      IsKeyed-append _ _ (fresh_request ∷ []) bobs_request
        (IsKeyed-append _ _ [] fresh_request (unkeyed (λ r. r.id)) refl) refl;
  linked = (refl, (refl, tt));
}

pub shop-IsSound : IsSound shop
unfolding first
shop-IsSound = record {
  accounts = shop-accounts;
  machines = record {
    keys = IsKeyed-append _ _ [] pac_man (unkeyed (λ m. m.id)) refl;
    names = IsNamed-append (λ m. m.name) [] pac_man (λ s. no_rows (λ m. nocase_eq m.name s)) refl;
  };
  requests = shop-requests;
}

-- a hash that is the password itself
abbrev pub plain : Bcrypt
plain = record { generate = λ salt p. some p; compare = λ h p. h == p }

-- `plain` matches a password with its hash
pub plain-compare :
    (salt : Option (List ℕ)) (password hash : String)
    → plain.generate salt password ≡ some hash
    → plain.compare hash password ≡ true
plain-compare salt password hash e =
    (eq_iff hash password).1 (sym (ap (λ o. elim o [ none ↦ "" | some h ↦ h ]) e))

pub empty-accounts : Accounts.IsSound empty
empty-accounts = record {
  keys = unkeyed (λ u. u.id);
  names = λ s. no_rows (λ u. nocase_eq u.username s);
  roles = tt;
  tokens = λ s. no_rows (λ x. x.token == s);
  owners = tt;
}
