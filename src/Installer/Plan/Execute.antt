-- ===== src/Installer/Plan/Execute.antt =====
-- `execute` of crates/installer/src/plan.rs. The operating system is a function of all that was
-- asked of it before, so it may fail at any call and change between two calls; the requests that
-- were made are kept with their answers, the last one first.
pub mod Perform
pub mod Keeps
pub mod Commands
pub mod Lines
pub mod Modes
use one_drive_hydration.Prelude.{
  ℕ, String, Bool, true, false, not, ◌&&◌, Option, none, some, List, [], ◌∷◌, Result, ok, err,
  ErrorKind,
}
use one_drive_hydration.Text.{Text}
use one_drive_hydration.Installer.Plan.{Options, real, Action}

pub record ExecMode : Type 0 where
  pub write_files : Bool
  pub run_commands : Bool

-- `ExecMode::from`
unfoldable pub mode_of : Options → ExecMode
unfolding real
mode_of opts = record { write_files = not opts.dry_run; run_commands = real opts }

pub data Event : Type 0 where
  created_dir : Text → Result ErrorKind (Unit {0}) → Event
  chowned : Text → ℕ × ℕ → Result ErrorKind (Unit {0}) → Event
  wrote : Text → Text → Result ErrorKind (Unit {0}) → Event
  renamed : Text → Text → Result ErrorKind (Unit {0}) → Event
  linked : Text → Text → Result ErrorKind (Unit {0}) → Event
  opened : Text → Result ErrorKind (Unit {0}) → Event
  appended : Text → Text → Result ErrorKind (Unit {0}) → Event
  removed : Text → Result ErrorKind (Unit {0}) → Event
  ran : List Text → Result ErrorKind Bool → Event
  table_read : Result ErrorKind Text → Event

abbrev pub History : Type 0
History = List Event

-- The operating system: each answer may depend on all requests made so far.
pub record System : Type 0 where
  pub euid : ℕ
  pub exists : History → Text → Bool
  pub create_dir : History → Text → Result ErrorKind (Unit {0})
  pub chown : History → Text → ℕ × ℕ → Result ErrorKind (Unit {0})
  pub write : History → Text → Text → Result ErrorKind (Unit {0})
  pub rename : History → Text → Text → Result ErrorKind (Unit {0})
  pub read_link : History → Text → Result ErrorKind Text
  pub symlink : History → Text → Text → Result ErrorKind (Unit {0})
  pub open_append : History → Text → Result ErrorKind (Unit {0})
  pub append : History → Text → Text → Result ErrorKind (Unit {0})
  pub remove_file : History → Text → Result ErrorKind (Unit {0})
  pub status : History → List Text → Result ErrorKind Bool
  pub mountinfo : History → Result ErrorKind Text

pub data ExecError : Type 0 where
  at : String → Text → ErrorKind → ExecError
  plain : ErrorKind → ExecError
  command_failed : List Text → String → ExecError
  mount_remains : Text → ExecError

-- A computation that asks the system and may stop with an error.
abbrev pub Exec : Type 0 → Type 0
Exec A = History → Result ExecError A × History

module _ {A : Type 0} where
  unfoldable pub pure : A → Exec A
  pure a h = (ok a, h)

  unfoldable pub raise : ExecError → Exec A
  raise e h = (err e, h)

  -- One request: the answer goes on, and the event is kept.
  unfoldable pub request :
      (ErrorKind → ExecError)
      → (History → Result ErrorKind A)
      → (Result ErrorKind A → Event)
      → Exec A
  request wrap answer event h = elim (answer h) [
    | ok a ↦ (ok a, event (ok a) ∷ h)
    | err e ↦ (err (wrap e), event (err e) ∷ h)
  ]

  -- A question that changes nothing and is not kept.
  unfoldable pub observe : (History → A) → Exec A
  observe answer h = (ok (answer h), h)

module _ {A B : Type 0} where
  unfoldable pub continue : Result ExecError A → (A → Exec B) → Exec B
  continue (ok a) f h = f a h
  continue (err e) f h = (err e, h)

  infixl 5 ◌>>=◌ ◌>>◌
  unfoldable pub ◌>>=◌ : Exec A → (A → Exec B) → Exec B
  unfolding continue pure raise request observe
  ◌>>=◌ m f h = let (r, h') = m h in continue r f h'

  abbrev pub ◌>>◌ : Exec A → Exec B → Exec B
  m >> k = m >>= λ _. k
