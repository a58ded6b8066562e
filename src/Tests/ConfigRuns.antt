-- ===== src/Tests/ConfigRuns.antt =====
-- Rewriting a configuration file, with a codec and a `Clean` that have the laws of the libraries'.
use Prim.Native.Char.{code}
use Prim.Native.String.{[], ◌∷◌, ◌++◌}
use text.Mathlib.TextLemmas.{cons-append}
use starfighter_workflow.Common.{
  ℕ, String, false, Option, none, some, ◌≡◌, refl, sym, ap, ◌∙◌, ◌==◌, ◌=ℕ◌, if◌then◌else◌,
  Bool-cases, inl, inr,
}
use starfighter_workflow.Config.{
  Config, Library, Files, works, fails, Machine, Environment, returned, load, update_config,
  update_display_name, defaults,
}
use starfighter_workflow.Config.Atomic.{Updated, update_config-Updated}
use starfighter_workflow.Config.Reload.{PathLaws, JsonLaws, update_display_name-load}

-- a text with its end marked, and what follows it
written : String → String → String
written [] rest = "b" ∷ rest
written (c ∷ s) rest = "a" ∷ c ∷ written s rest

read_text : String → String × String
read_text [] = ([], [])
read_text (x ∷ []) = ([], [])
read_text (x ∷ c ∷ t) =
    let r = read_text t in if code x =ℕ b'b' then ([], c ∷ t) else (c ∷ r.0, r.1)

read-written : (s rest : String) → read_text (written s rest) ≡ (s, rest)
unfolding read_text written
read-written [] [] = refl
read-written [] (c ∷ rest) = refl
read-written (c ∷ s) rest = ap (λ (r : String × String). (c ∷ r.0, r.1)) (read-written s rest)

written-append : (s rest end : String) → written s rest ++ end ≡ written s (rest ++ end)
unfolding written
written-append [] rest end = cons-append "b" rest end
written-append (c ∷ s) rest end =
    cons-append "a" (c ∷ written s rest) end
    ∙ ap (λ t. "a" ∷ t)
        (cons-append c (written s rest) end ∙ ap (λ t. c ∷ t) (written-append s rest end))

pub encoded : Config → String → String
unfolding written
encoded c rest = written c.data_dir (written c.display_name (written c.http.addr rest))

pub decoded : String → Config
unfolding read_text
decoded s =
    let dir = read_text s in
    let name = read_text dir.1 in
    record {
      data_dir = dir.0;
      display_name = name.0;
      http = record { addr = (read_text name.1).0 };
    }

pub clean : String → String
clean p = if p == "" then "." else p

abbrev pub library : Library
library = record {
  unmarshal = λ s before. some (decoded s);
  marshal = λ c. some (encoded c "");
  clean = clean;
}

encoded-append : (c : Config) (end : String) → encoded c "" ++ end ≡ encoded c ("" ++ end)
unfolding encoded
encoded-append c end =
    written-append c.data_dir _ end
    ∙ ap (written c.data_dir) (
        written-append c.display_name _ end
        ∙ ap (written c.display_name) (written-append c.http.addr "" end))

decoded-encoded : (c : Config) (rest : String) → decoded (encoded c rest) ≡ c
unfolding decoded encoded
decoded-encoded c rest =
    rw
      (
        read-written c.data_dir (written c.display_name (written c.http.addr rest)),
        read-written c.display_name (written c.http.addr rest),
        read-written c.http.addr rest,
      )
      refl

some_of : {A : Type 0} → A → Option A → A
some_of z none = z
some_of z (some a) = a

library-JsonLaws : JsonLaws library
unfolding some_of
library-JsonLaws = record {
  encodes = λ c. (encoded c "", refl);
  decodes = λ c before json e.
      ap (λ j. some (decoded (j ++ "\n"))) (sym (ap (some_of "") e))
      ∙ ap (λ j. some (decoded j)) (encoded-append c "\n")
      ∙ ap some (decoded-encoded c ("" ++ "\n"));
}

clean-clean : (p : String) → clean (clean p) ≡ clean p
unfolding clean
clean-clean p = elim (Bool-cases (p == "")) [ inl e ↦ rw e refl | inr e ↦ rw (e, e) refl ]

clean-empty : (p : String) → (clean p == "") ≡ false
unfolding clean
clean-empty p = elim (Bool-cases (p == "")) [ inl e ↦ rw e refl | inr e ↦ rw e e ]

clean-default : clean defaults.data_dir ≡ defaults.data_dir
unfolding clean
clean-default = refl

pub library-PathLaws : PathLaws library
library-PathLaws = record {
  clean-clean = clean-clean;
  clean-empty = clean-empty;
  clean-default = clean-default;
}

-- the machine on which call `n` fails
abbrev pub failing_at : ℕ → Environment
failing_at n = record {
  library = library;
  event = λ k. if k =ℕ n then fails else works;
  temp = "tmp";
  partial = λ s. "";
}

abbrev pub sound_machine : Environment
sound_machine = record (failing_at 0) { event = λ k. works }

abbrev pub shop_config : Config
shop_config = record defaults { data_dir = "/srv/shop" }

abbrev pub files : Files
files q =
    if q == "config.json"
    then some (record { content = encoded shop_config "\n"; mode = 0x1a4 })
    else none

abbrev pub booted : Machine
booted = record { files = files; tick = 0 }

abbrev rename_shop : Config → Config
rename_shop c = record c { display_name = "Shop" }

-- the rename fails
update_config-Updated_example :
    Updated
      (failing_at 5)
      "config.json"
      rename_shop
      booted
      (update_config (failing_at 5) "config.json" rename_shop booted)
update_config-Updated_example =
    update_config-Updated (failing_at 5) "config.json" rename_shop booted refl refl

pub shop_loads : (load sound_machine "config.json" booted).0 ≡ returned shop_config
unfolding load encoded decoded written read_text clean
shop_loads = refl

update_display_name-load_example :
    ((update_display_name sound_machine "config.json" "Shop" booted).0 ≡ returned tt)
    × ((load sound_machine "config.json"
          (update_display_name sound_machine "config.json" "Shop" booted).1).0
        ≡ returned (record shop_config { display_name = "Shop" }))
update_display_name-load_example =
    update_display_name-load sound_machine "config.json" "Shop" shop_config booted library-PathLaws
      library-JsonLaws (λ n. refl) refl refl shop_loads
