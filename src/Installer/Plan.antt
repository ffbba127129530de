-- ===== src/Installer/Plan.antt =====
-- The data of crates/installer/src/plan.rs: checks, outcomes, options, actions. Each text that is
-- shown to a person is a constructor of `Message` with the values that the source interpolates.
pub mod Checks
pub mod Placement
pub mod Collide
pub mod Install
pub mod Uninstall
pub mod Execute
use one_drive_hydration.Prelude.{
  ℕ, String, ◌≡◌, refl, Bool, true, false, not, ◌&&◌, ◌||◌, Option, none, some, List, [], ◌∷◌, ◌++◌,
  any, if◌then◌else◌, Result, ErrorKind, is_some,
}
use one_drive_hydration.Text.{Text, codes}
use one_drive_hydration.Text.FilePath.{path_eq}
use one_drive_hydration.Installer.Facts.{Tray}
use one_drive_hydration.Installer.Kernel.{KernelSupport, KernelDetail}
use one_drive_hydration.Installer.Session.{
  Vantage, VantageDetail, SecretService, SecretDetail, Plasmoid, BinaryFault, Metadata,
}
use one_drive_hydration.Installer.Fstab.{ByUuid}

pub data Message : Type 0 where
  kernel_measured kernel_inferred kernel_too_old_measured kernel_too_old_inferred : Text → Message
  kernel_unknown : KernelDetail → Message
  sees_host_mounts : Message
  private_namespace vantage_unverified : VantageDetail → Message
  own_mount : Text → Text → Text → Message
  not_a_mount_point : Text → Message
  fstype_allows_hsm fstype_lacks_hsm : Text → Message
  fstype_is_tmpfs : Message
  nothing_exposed : Message
  exposed_by : List Text → Message
  fstab_not_checked fstab_has_noauto : Message
  fstab_lacks_noauto fstab_will_append fstab_has_no_entry : Text → Message
  secrets_owned secrets_activatable : Message
  secrets_unreachable secrets_unverified secrets_unverified_in_rehearsal : SecretDetail → Message
  two_tray_surfaces deliberate_second_icon applet_is_tray : Text → Message
  applet_not_installed unit_is_tray unit_is_chosen_tray no_tray_icon : Message
  binaries_present : Text → Message
  binaries_missing : List BinaryFault → Message
  no_namespace_directive : Message
  namespace_directive_found : List (Text × ℕ × Text) → Message
  file_differs : Text → Message
  link_differs : Text → Text → Text → Message
  needs_root : Message
  still_mounted will_be_unmounted not_mounted : Text → Message

pub data Outcome : Type 0 where
  pass caveat refuse : Message → Outcome

pub record Check : Type 0 where
  pub name : String
  pub outcome : Outcome

abbrev pub refused_message : Outcome → Option Message
refused_message (refuse m) = some m
refused_message _ = none

-- `Check::refused`
abbrev pub refused : Check → Option Message
refused c = refused_message c.outcome

-- `Observed`
pub record Observed : Type 0 where
  pub vantage : Vantage
  pub kernel : KernelSupport
  pub mountinfo : Text
  pub fstab : Text
  pub secrets : SecretService
  pub plasmoid : Plasmoid

pub record Options : Type 0 where
  pub prefix : Text
  pub dry_run : Bool
  pub force : Bool
  pub consent_fstab : Bool
  pub tray : Option Tray

-- `Options::real`
unfoldable pub real : Options → Bool
real opts = path_eq opts.prefix (codes "/") && not opts.dry_run

abbrev pub Owner : Type 0
Owner = Option (ℕ × ℕ)

-- What `install` and `uninstall` print at their end.
pub data Notice : Type 0 where
  installed_next_steps : Tray → Notice
  left_in_place : Notice

pub data Action : Type 0 where
  write_file : Text → Text → Owner → Action
  symlink : Text → Text → Owner → Action
  unchanged : Text → Action
  append_fstab : Text → Text → Action
  remove_file : Text → Action
  run : List Text → String → Action
  verify_unmounted : Text → Action
  manual : Notice → Action

pub record Planned : Type 0 where
  pub checks : List Check
  pub actions : Option (List Action)

-- `Planned::refusals`
refusals_of : List Check → List Message
refusals_of [] = []
refusals_of (c ∷ checks) =
    let rest = refusals_of checks in elim (refused c) [ some m ↦ m ∷ rest | none ↦ rest ]

unfoldable pub refusals : Planned → List Message
unfolding refusals_of
refusals p = refusals_of p.checks

-- `checks.iter().any(|c| c.refused().is_some())`
abbrev pub any_refused : List Check → Bool
any_refused = any (λ c. is_some (refused c))

-- What planning reads of the file system: nothing is written while it reads.
pub record Machine : Type 0 where
  pub euid : ℕ
  pub metadata : Text → Result ErrorKind Metadata
  pub exists : Text → Bool
  pub link_exists : Text → Bool
  pub read_to_string : Text → Result ErrorKind Text
  pub read_link : Text → Result ErrorKind Text
  pub by_uuid : ByUuid
