-- ===== src/Config/Reload.antt =====
-- What `Load` gives, and that it reads what `UpdateDisplayName` wrote.
use Prim.Native.String.{◌++◌}
use starfighter_workflow.Common.{
  ℕ, suc, String, true, false, Option, none, some, ◌==◌, ◌≡◌, refl, sym, ap, ◌∙◌, arith, inl, inr,
  Bool-cases, Option-cases, eq_iff,
}
use mathlib.Core.Path.{subst}
use starfighter_workflow.Config.Atomic.{Event-cases, update_config-Updated, Updated, config_mode}
use starfighter_workflow.Config.{
  Config, defaults, Library, create_failed, marshal_failed, File, put, works, Machine, Environment,
  Outcome, returned, failed, dead, Act, continue, or_fail, call, ◌>>=◌, validate, load, load_file,
  cleanup, replace_file, update_config, update_display_name,
}

-- `filepath.Clean`: cleaning once is enough, and never gives the empty path
pub record PathLaws (lib : Library) : Type 0 where
  pub clean-clean : (p : String) → lib.clean (lib.clean p) ≡ lib.clean p
  pub clean-empty : (p : String) → (lib.clean p == "") ≡ false
  pub clean-default : lib.clean defaults.data_dir ≡ defaults.data_dir

-- encoding/json: every value encodes, and what was encoded is decoded, whatever stood there before
pub record JsonLaws (lib : Library) : Type 0 where
  pub encodes : (c : Config) → (json : String) × (lib.marshal c ≡ some json)
  pub decodes :
      (c before : Config) (json : String)
      → lib.marshal c ≡ some json
      → lib.unmarshal (json ++ "\n") before ≡ some c

abbrev pub IsHealthy : Environment → Type 0
IsHealthy env = (n : ℕ) → env.event n ≡ works

value : {A : Type 0} → A → Outcome A → A
value z (returned a) = a
value z (failed e) = z
value z dead = z

pub returned_inj : {A : Type 0} {a b : A} → returned a ≡ returned b → a ≡ b
unfolding value
returned_inj {a} e = ap (value a) e

itself : (s : String) → (s == s) ≡ true
itself s = (eq_iff s s).1 refl

differs : (s t : String) → (s == t) ≡ false → (t == s) ≡ false
differs s t h = ground (arith, eq_iff s t, eq_iff t s)

-- a configuration whose data directory is given and clean
abbrev pub IsValid : Library → Config → Type 0
IsValid lib c = ((c.data_dir == "") ≡ false) × (lib.clean c.data_dir ≡ c.data_dir)

module _ (env : Environment) (laws : PathLaws env.library) where
  IsValid-returned :
      (c cfg : Config) → returned c ≡ returned cfg → IsValid env.library c → IsValid env.library cfg
  IsValid-returned c cfg e v = subst (IsValid env.library) (returned_inj e) v

  validate-IsValid :
      (c cfg : Config) (m : Machine) → (validate env c m).0 ≡ returned cfg → IsValid env.library cfg
  validate-IsValid c cfg m h = elim (Bool-cases (c.data_dir == "")) [
    | inl empty ↦ absurd (ground (arith, h))
    | inr given ↦
        IsValid-returned _ cfg (rw given at h)
          (laws.clean-empty c.data_dir, laws.clean-clean c.data_dir)
  ]

  load_file-IsValid :
      (o : Option File) (cfg : Config) (m : Machine)
      → (load_file env o m).0 ≡ returned cfg
      → IsValid env.library cfg
  load_file-IsValid none cfg m h = IsValid-returned defaults cfg h (refl, laws.clean-default)
  load_file-IsValid (some file) cfg m h =
      elim (Option-cases (env.library.unmarshal file.content defaults)) [
        | inl bad ↦ absurd (ground (arith, h))
        | inr (c, parsed) ↦ validate-IsValid c cfg m (rw parsed at h)
      ]

  load-IsValid_in :
      (path : String) (cfg : Config) (m : Machine)
      → (load env path m).0 ≡ returned cfg
      → IsValid env.library cfg
  unfolding load
  load-IsValid_in path cfg m h = elim (Event-cases (env.event m.tick)) [
    | inl x ↦ load_file-IsValid (m.files path) cfg _ (rw x at h)
    | inr (inl x) ↦ absurd (ground (arith, h))
    | inr (inr x) ↦ absurd (ground (arith, h))
  ]

-- Whatever the file holds and wherever a call fails, a configuration that `Load` returns has a data
-- directory that is not empty and is clean, given the laws of `filepath.Clean`.
pub load-IsValid :
    (env : Environment) (path : String) (cfg : Config) (m : Machine)
    → PathLaws env.library
    → (load env path m).0 ≡ returned cfg
    → IsValid env.library cfg
load-IsValid env path cfg m laws h = load-IsValid_in env laws path cfg m h

module _ (env : Environment) (healthy : IsHealthy env) (json_laws : JsonLaws env.library)
    (path : String) where
  replace_returns :
      (text : String) (m : Machine) → (cleanup env (replace_file env path text m)).0 ≡ returned tt
  unfolding replace_file
  replace_returns text m =
      rw
        (
          healthy m.tick,
          healthy (suc m.tick),
          healthy (suc (suc m.tick)),
          healthy (suc (suc (suc m.tick))),
        )
        refl

  encoded_returns :
      (o : Option String) (json : String) (m : Machine)
      → o ≡ some json
      → (continue
          (λ json.
            call env create_failed
              (put env.temp (some (record { content = ""; mode = 0x180 })))
              (λ f. f)
            >>= λ _ k. cleanup env (replace_file env path (json ++ "\n") k))
          (or_fail marshal_failed o m)).0
        ≡ returned tt
  encoded_returns o json m e = rw (e, healthy m.tick) (replace_returns (json ++ "\n") _)

  abbrev rewritten : (Config → Config) → Config → Act Unit
  rewritten patch cfg = or_fail marshal_failed (env.library.marshal (patch cfg)) >>= λ json.
      call env create_failed (put env.temp (some (record { content = ""; mode = 0x180 }))) (λ f. f)
      >>= λ _ k. cleanup env (replace_file env path (json ++ "\n") k)

  continue_returns :
      (patch : Config → Config) (cfg : Config) (r : Outcome Config × Machine)
      → r.0 ≡ returned cfg
      → (continue (rewritten patch) r).0 ≡ returned tt
  continue_returns patch cfg (returned c, m) e =
      let (json, j) = json_laws.encodes (patch c) in
      encoded_returns (env.library.marshal (patch c)) json m j
  continue_returns patch cfg (failed x, m) e = absurd (cc)
  continue_returns patch cfg (dead, m) e = absurd (cc)

  update_config-returns :
      (patch : Config → Config) (m : Machine) (cfg : Config)
      → (load env path m).0 ≡ returned cfg
      → (update_config env path patch m).0 ≡ returned tt
  unfolding update_config
  update_config-returns patch m cfg h = continue_returns patch cfg (load env path m) h

  -- `Load` after the file has been written
  load_written :
      (cfg : Config) (json : String) (mode : ℕ) (m : Machine)
      → IsValid env.library cfg
      → env.library.marshal cfg ≡ some json
      → m.files path ≡ some (record { content = json ++ "\n"; mode = mode })
      → (load env path m).0 ≡ returned cfg
  unfolding load
  load_written cfg json mode m (given, clean) j e =
      rw (healthy m.tick, e, json_laws.decodes cfg defaults json j, given)
        (ap (λ d. returned (record cfg { data_dir = d })) clean)

  abbrev renamed : String → Config → Config
  renamed name c = record c { display_name = name }

  reloaded :
      (name : String) (m : Machine) (cfg : Config) (r : Outcome Unit × Machine)
      → (path == env.temp) ≡ false
      → IsValid env.library cfg
      → (load env path m).0 ≡ returned cfg
      → r.0 ≡ returned tt
      → Updated env path (renamed name) m r
      → (load env path r.1).0 ≡ returned (renamed name cfg)
  reloaded name m cfg (returned a, k) apart valid h good (c, json, l, j, (new, gone)) =
      let e : c ≡ cfg = returned_inj (sym l ∙ h) in
      load_written (renamed name cfg) json config_mode k valid
        (ap (λ x. env.library.marshal (renamed name x)) (sym e) ∙ j)
        (new path apart ∙ unfold put in rw (itself path) refl)
  reloaded name m cfg (failed x, k) apart valid h good u = absurd (cc)
  reloaded name m cfg (dead, k) apart valid h good u = absurd (cc)

-- When no call fails and the file can be read, `UpdateDisplayName` succeeds, and `Load` then gives
-- the configuration that it gave before with the new display name, given the laws of
-- `filepath.Clean` and of encoding/json and a temporary name that no file has.
pub update_display_name-load :
    (env : Environment) (path name : String) (cfg : Config) (m : Machine)
    → PathLaws env.library
    → JsonLaws env.library
    → IsHealthy env
    → (env.temp == path) ≡ false
    → m.files env.temp ≡ none
    → (load env path m).0 ≡ returned cfg
    → ((update_display_name env path name m).0 ≡ returned tt)
      × ((load env path (update_display_name env path name m).1).0
          ≡ returned (record cfg { display_name = name }))
unfolding update_display_name
update_display_name-load env path name cfg m paths json healthy apart free h =
    let good =
      update_config-returns env healthy json path (renamed env healthy json path name) m cfg h in
    (
      good,
      reloaded env healthy json path name m cfg _ (differs env.temp path apart)
          (load-IsValid env path cfg m paths h) h good
          (update_config-Updated env path _ m apart free),
    )
