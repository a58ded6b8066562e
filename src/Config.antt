-- ===== src/Config.antt =====
-- internal/config/config.go: reading the configuration and rewriting it through a temporary file.
-- JSON and `filepath` are the standard library's, in `Library`. At each call of the operating system
-- `event` says whether it works, fails, or the process is killed there.
pub mod Atomic
pub mod Reload
use Prim.Native.String.{◌++◌}
use starfighter_workflow.Common.{ℕ, suc, String, Option, none, some, ◌==◌, if◌then◌else◌}

pub record HttpConfig : Type 0 where
  pub addr : String

pub record Config : Type 0 where
  pub data_dir : String
  pub display_name : String
  pub http : HttpConfig

abbrev pub defaults : Config
defaults = record {
  data_dir = "/var/lib/sfworkflowd";
  display_name = "Repair Workflow";
  http = record { addr = ":9090" };
}

-- `json.Unmarshal` over a value, `json.MarshalIndent`, `filepath.Clean`
pub record Library : Type 0 where
  pub unmarshal : String → Config → Option Config
  pub marshal : Config → Option String
  pub clean : String → String

pub data Error : Type 0 where
  read_failed parse_failed no_data_dir marshal_failed create_failed write_failed chmod_failed
        close_failed rename_failed :
      Error

pub record File : Type 0 where
  pub content : String
  pub mode : ℕ

abbrev pub Files : Type 0
Files = String → Option File

unfoldable pub put : String → Option File → Files → Files
put path file files q = if q == path then file else files q

pub data Event : Type 0 where
  works fails killed : Event

-- `temp` is the name that `CreateTemp` picks, `partial` what a write that fails leaves in the file
pub record Machine : Type 0 where
  pub files : Files
  pub tick : ℕ

pub record Environment : Type 0 where
  pub library : Library
  pub event : ℕ → Event
  pub temp : String
  pub partial : String → String

pub data Outcome (A : Type 0) : Type 0 where
  returned : A → Outcome A
  failed : Error → Outcome A
  dead : Outcome A

abbrev pub Act : Type 0 → Type 0
Act A = Machine → Outcome A × Machine

abbrev pub continue : {A B : Type 0} → (A → Act B) → Outcome A × Machine → Outcome B × Machine
continue k (returned a, m) = k a m
continue k (failed e, m) = (failed e, m)
continue k (dead, m) = (dead, m)

infixl 5 ◌>>=◌ ◌>>◌
abbrev pub ◌>>=◌ : {A B : Type 0} → Act A → (A → Act B) → Act B
(x >>= k) m = continue k (x m)

abbrev pub ◌>>◌ : {A B : Type 0} → Act A → Act B → Act B
x >> k = x >>= λ _. k

abbrev pub done : {A : Type 0} → A → Act A
done a m = (returned a, m)

abbrev pub or_fail : {A : Type 0} → Error → Option A → Act A
or_fail bad none m = (failed bad, m)
or_fail bad (some a) m = (returned a, m)

abbrev pub elapse : Machine → Machine
elapse m = record m { tick = suc m.tick }

abbrev pub with_files : (Files → Files) → Machine → Machine
with_files f m = elapse (record m { files = f m.files })

-- a call that makes the files `f` of them if it works, and `g` if it fails
abbrev pub at_event : Error → (f g : Files → Files) → Event → Act Unit
at_event bad f g Event.works m = (returned tt, with_files f m)
at_event bad f g Event.fails m = (failed bad, with_files g m)
at_event bad f g Event.killed m = (dead, m)

abbrev pub with_mode : ℕ → Option File → Option File
with_mode mode none = none
with_mode mode (some file) = some (record file { mode = mode })

abbrev pub after_remove : Error → Outcome Unit × Machine → Outcome Unit × Machine
after_remove e (returned a, m) = (failed e, m)
after_remove e (failed x, m) = (failed e, m)
after_remove e (dead, m) = (dead, m)

module _ (env : Environment) where
  abbrev pub call : Error → (f g : Files → Files) → Act Unit
  call bad f g m = at_event bad f g (env.event m.tick) m

  abbrev pub same : Files → Files
  same files = files

  -- the last part of `Load`
  abbrev pub validate : Config → Act Config
  validate cfg =
      if cfg.data_dir == ""
      then (λ m. (failed Error.no_data_dir, m))
      else done (record cfg { data_dir = env.library.clean cfg.data_dir })

  -- what `Load` makes of the file
  abbrev pub load_file : Option File → Act Config
  load_file none = done defaults
  load_file (some file) = do
    cfg ← or_fail Error.parse_failed (env.library.unmarshal file.content defaults)
    validate cfg

  unfoldable pub load : String → Act Config
  load path = do call Error.read_failed same same; λ m. load_file (m.files path) m

  -- the deferred `os.Remove`; its error is ignored
  abbrev pub cleanup : Outcome Unit × Machine → Outcome Unit × Machine
  cleanup (returned a, m) = (returned a, m)
  cleanup (failed e, m) = after_remove e (call Error.rename_failed (put env.temp none) same m)
  cleanup (dead, m) = (dead, m)

  -- from the write of the temporary file on
  pub replace_file : String → String → Act Unit
  unfolding put
  replace_file path text = do
    call Error.write_failed (put env.temp (some (record { content = text; mode = 0x180 })))
        (put env.temp (some (record { content = env.partial text; mode = 0x180 })))
    call Error.chmod_failed (λ files. put env.temp (with_mode 0x1a4 (files env.temp)) files) same
    call Error.close_failed same same
    call Error.rename_failed (λ files. put env.temp none (put path (files env.temp) files)) same

  pub update_config : String → (Config → Config) → Act Unit
  unfolding replace_file load put
  update_config path patch = do
    cfg ← load path
    json ← or_fail Error.marshal_failed (env.library.marshal (patch cfg))
    call Error.create_failed (put env.temp (some (record { content = ""; mode = 0x180 }))) same
    λ m. cleanup (replace_file path (json ++ "\n") m)

  pub update_display_name : String → String → Act Unit
  unfolding update_config
  update_display_name path name = update_config path (λ c. record c { display_name = name })
