-- ===== src/Config/Atomic.antt =====
-- What `updateConfig` leaves, wherever it stops.
use Prim.Native.String.{◌++◌}
use starfighter_workflow.Common.{
  ℕ, suc, ◌-◌, String, true, false, Option, none, some, ◌==◌, ◌≡◌, refl, sym, ap, ◌∙◌, arith, ◌⊎◌,
  inl, inr, Option-cases, eq_iff,
}
use starfighter_workflow.Config.{
  Config, create_failed, marshal_failed, File, Files, put, Event, works, fails, killed, Machine,
  Environment, Outcome, returned, failed, dead, continue, or_fail, call, ◌>>=◌, load, load_file,
  cleanup, replace_file, update_config, with_files,
}

abbrev pub config_mode : ℕ
config_mode = 0x1a4

pub Event-cases : (e : Event) → (e ≡ works) ⊎ ((e ≡ fails) ⊎ (e ≡ killed))
Event-cases works = inl refl
Event-cases fails = inr (inl refl)
Event-cases killed = inr (inr refl)

module _ (env : Environment) (path : String) where
  itself : (env.temp == env.temp) ≡ true
  itself = (eq_iff env.temp env.temp).1 refl

  abbrev with_temp : Machine → Machine
  with_temp = with_files (put env.temp (some (record { content = ""; mode = 0x180 })))

  -- every file but the temporary one
  abbrev pub SameBut : Files → Files → Type 0
  SameBut before after = (q : String) → (q == env.temp) ≡ false → after q ≡ before q

  abbrev Replaced : String → Files → Outcome Unit × Machine → Type 0
  Replaced text before (returned a, m) =
      SameBut (put path (some (record { content = text; mode = config_mode })) before) m.files
      × (m.files env.temp ≡ none)
  Replaced text before (failed e, m) = SameBut before m.files × (env.event (m.tick - 1) ≡ fails)
  Replaced text before (dead, m) = SameBut before m.files

  -- After an error the temporary file is as it was, which is gone, unless the last two calls failed:
  -- the one that is reported, and the removal after it.
  abbrev IsCleaned : Files → Machine → Type 0
  IsCleaned before m =
      (m.files env.temp ≡ before env.temp)
      ⊎ ((env.event (m.tick - 2) ≡ fails) × (env.event (m.tick - 1) ≡ fails))

  abbrev pub Updated : (Config → Config) → Machine → Outcome Unit × Machine → Type 0
  Updated patch m (returned a, m') =
      (cfg : Config) × (json : String) × ((load env path m).0 ≡ returned cfg)
      × (env.library.marshal (patch cfg) ≡ some json)
      × Replaced (json ++ "\n") m.files (returned a, m')
  Updated patch m (failed e, m') = SameBut m.files m'.files × IsCleaned m.files m'
  Updated patch m (dead, m') = SameBut m.files m'.files

  module _ (apart : (env.temp == path) ≡ false) where
    twice :
        (k : Machine)
        → env.event (k.tick - 1) ≡ fails
        → env.event k.tick ≡ fails
        → (env.event (suc k.tick - 2) ≡ fails) × (env.event (suc k.tick - 1) ≡ fails)
    twice k broke x =
        let reported : suc k.tick - 2 ≡ k.tick - 1 = omega arith in
        let removal : suc k.tick - 1 ≡ k.tick = omega arith in
        (ap env.event reported ∙ broke, ap env.event removal ∙ x)

    replace_file-Replaced :
        (text : String) (m : Machine) → Replaced text m.files (replace_file env path text m)
    unfolding replace_file put
    replace_file-Replaced text m = elim (Event-cases (env.event m.tick)) [
      | inr (inl e) ↦ rw e ((λ q h. ground (arith, h)), ground (arith, e))
      | inr (inr e) ↦ rw e (λ q h. refl)
      | inl e ↦ rw e (elim (Event-cases (env.event (suc m.tick))) [
        | inr (inl f) ↦ rw f ((λ q h. ground (arith, h)), ground (arith, f))
        | inr (inr f) ↦ rw f (λ q h. ground (arith, h))
        | inl f ↦ rw f (elim (Event-cases (env.event (suc (suc m.tick)))) [
          | inr (inl g) ↦ rw g ((λ q h. ground (arith, h)), ground (arith, g))
          | inr (inr g) ↦ rw g (λ q h. ground (arith, h))
          | inl g ↦ rw g (elim (Event-cases (env.event (suc (suc (suc m.tick))))) [
            | inr (inl k) ↦ rw k ((λ q h. ground (arith, h)), ground (arith, k))
            | inr (inr k) ↦ rw k (λ q h. ground (arith, h))
            | inl k ↦ rw (k, itself) ((λ q h. ground (arith, h)), ground (arith, itself))
          ])
        ])
      ])
    ]

    module _ (patch : Config → Config) where
      cleanup-Updated :
          (m m' : Machine) (cfg : Config) (json : String) (r : Outcome Unit × Machine)
          → (load env path m).0 ≡ returned cfg
          → env.library.marshal (patch cfg) ≡ some json
          → m.files env.temp ≡ none
          → SameBut m.files m'.files
          → Replaced (json ++ "\n") m'.files r
          → Updated patch m (cleanup env r)
      unfolding put
      cleanup-Updated m m' cfg json (returned a, k) l j free same (new, gone) =
          (cfg, json, l, j, ((λ q h. ground (arith, new q h, same q h)), gone))
      cleanup-Updated m m' cfg json (failed e, k) l j free same (kept, broke) =
          elim (Event-cases (env.event k.tick)) [
            | inl x ↦ rw (x, itself) ((λ q h. rw h (kept q h ∙ same q h)), inl (sym free))
            | inr (inl x) ↦ rw x ((λ q h. kept q h ∙ same q h), inr (twice k broke x))
            | inr (inr x) ↦ rw x (λ q h. kept q h ∙ same q h)
          ]
      cleanup-Updated m m' cfg json (dead, k) l j free same kept = λ q h. kept q h ∙ same q h

      -- from the creation of the temporary file on
      created :
          (m m' : Machine) (cfg : Config) (json : String)
          → (load env path m).0 ≡ returned cfg
          → env.library.marshal (patch cfg) ≡ some json
          → m.files env.temp ≡ none
          → m'.files ≡ m.files
          → Updated patch m (
              continue
                (λ _ k. cleanup env (replace_file env path (json ++ "\n") k))
                (call env create_failed
                  (put env.temp (some (record { content = ""; mode = 0x180 })))
                  (λ f. f)
                  m'))
      created m m' cfg json l j free same = elim (Event-cases (env.event m'.tick)) [
        | inl x ↦ rw x (
            cleanup-Updated m (with_temp m') cfg json _ l j free
              (λ q h. unfold put in rw h (ap (λ f. f q) same))
              (replace_file-Replaced (json ++ "\n") (with_temp m')))
        | inr (inl x) ↦ rw x ((λ q h. ap (λ f. f q) same), inl (ap (λ f. f env.temp) same))
        | inr (inr x) ↦ rw x (λ q h. ap (λ f. f q) same)
      ]

      loaded :
          (m : Machine) (r : Outcome Config × Machine)
          → (load env path m).0 ≡ r.0
          → m.files env.temp ≡ none
          → r.1.files ≡ m.files
          → Updated patch m (
              continue
                (λ cfg. or_fail marshal_failed (env.library.marshal (patch cfg)) >>= λ json.
                  call env create_failed
                    (put env.temp (some (record { content = ""; mode = 0x180 })))
                    (λ f. f)
                  >>= λ _ k. cleanup env (replace_file env path (json ++ "\n") k))
                r)
      loaded m (failed e, k) l free same =
          ((λ q h. ap (λ f. f q) same), inl (ap (λ f. f env.temp) same))
      loaded m (dead, k) l free same = λ q h. ap (λ f. f q) same
      loaded m (returned cfg, k) l free same =
          elim (Option-cases (env.library.marshal (patch cfg))) [
            | inl bad ↦ rw bad ((λ q h. ap (λ f. f q) same), inl (ap (λ f. f env.temp) same))
            | inr (json, j) ↦ rw j (created m k cfg json l j free same)
          ]

      load_file-files : (o : Option File) (m : Machine) → (load_file env o m).1.files ≡ m.files
      load_file-files none m = refl
      load_file-files (some file) m = ground arith

      pub load-files : (m : Machine) → (load env path m).1.files ≡ m.files
      unfolding load
      load-files m = elim (Event-cases (env.event m.tick)) [
        | inl x ↦ rw x (load_file-files (m.files path) _)
        | inr (inl x) ↦ rw x refl
        | inr (inr x) ↦ rw x refl
      ]

      update_config-Updated_in :
          (m : Machine) → m.files env.temp ≡ none → Updated patch m (update_config env path patch m)
      unfolding update_config
      update_config-Updated_in m free = loaded m (load env path m) refl free (load-files m)

-- `updateConfig` with a temporary name that no file has and that is not the name of the
-- configuration: when it succeeds, the configuration is the patched one that `Load` gave, with mode
-- 0644, the temporary file is gone, and no other file has changed. When it fails, or the process is
-- killed at any of its calls, no file but the temporary one has changed, and after an error the
-- temporary file is gone too, unless the last two calls failed: the one that is reported, and the
-- removal after it.
pub update_config-Updated :
    (env : Environment) (path : String) (patch : Config → Config) (m : Machine)
    → (env.temp == path) ≡ false
    → m.files env.temp ≡ none
    → Updated env path patch m (update_config env path patch m)
update_config-Updated env path patch m apart free =
    update_config-Updated_in env path apart patch m free
