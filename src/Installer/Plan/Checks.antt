-- ===== src/Installer/Plan/Checks.antt =====
-- The `check_*` functions of crates/installer/src/plan.rs.
use one_drive_hydration.Prelude.{
  ℕ, Bool, true, false, Option, none, some, List, [], ◌∷◌, ◌++◌, any, map, if◌then◌else◌, ok, err,
  is_empty, unwrap_or,
}
use one_drive_hydration.Text.{Text, codes, text_eq}
use one_drive_hydration.Installer.Facts.{Tray, sni, plasmoid, no_tray, is_sni}
use one_drive_hydration.Installer.Units.{UnitFile, Rendered, all_units}
use one_drive_hydration.Installer.Units.Scan.{namespace_directives, must_share_host_namespace}
use one_drive_hydration.Installer.Kernel.{
  KernelSupport, measured, inferred, too_old_measured, too_old_inferred, unknown,
}
use one_drive_hydration.Installer.Mounts.{MountRow, find_mount, exposures}
use one_drive_hydration.Installer.Fstab.{FstabEntry, no_auto, automatic, absent}
use one_drive_hydration.Installer.Session.{
  Vantage, SecretService, Plasmoid, BinaryFault, binary_state,
}
use one_drive_hydration.Installer.Plan.{Message, Outcome, pass, caveat, refuse, Check, Machine}

abbrev pub allow_hsm : List Text
allow_hsm = map codes ("ext4" ∷ "btrfs" ∷ "xfs" ∷ [])

abbrev pub binaries : List Text
binaries = map codes (
    "hydrationd" ∷ "onedrive-hydration-daemon" ∷ "onedrive-hydrationctl" ∷ "onedrive-hydration-dbus"
    ∷ [])

abbrev pub tray_binary : Text
tray_binary = codes "onedrive-hydration-tray"

kernel_outcome : KernelSupport → Outcome
kernel_outcome (measured release) = pass (Message.kernel_measured release)
kernel_outcome (inferred release) = pass (Message.kernel_inferred release)
kernel_outcome (too_old_measured release) = refuse (Message.kernel_too_old_measured release)
kernel_outcome (too_old_inferred release) = refuse (Message.kernel_too_old_inferred release)
kernel_outcome (unknown detail) = refuse (Message.kernel_unknown detail)

unfoldable pub check_kernel : KernelSupport → Check
unfolding kernel_outcome
check_kernel kernel = record { name = "kernel"; outcome = kernel_outcome kernel }

vantage_outcome : Vantage → Outcome
vantage_outcome Vantage.host = pass Message.sees_host_mounts
vantage_outcome (Vantage.sandboxed detail) = refuse (Message.private_namespace detail)
vantage_outcome (Vantage.unknown detail) = caveat (Message.vantage_unverified detail)

unfoldable pub check_vantage : Vantage → Check
unfolding vantage_outcome
check_vantage v = record { name = "vantage"; outcome = vantage_outcome v }

mount_outcome : Text → Option MountRow → Outcome
mount_outcome mount (some row) = pass (Message.own_mount mount row.fstype row.source)
mount_outcome mount none = refuse (Message.not_a_mount_point mount)

unfoldable pub check_mount : List MountRow → Text → Check × Option MountRow
unfolding mount_outcome
check_mount rows mount =
    let row = find_mount rows mount in
    (record { name = "sync-root-mount"; outcome = mount_outcome mount row }, row)

-- `ALLOW_HSM.contains`
abbrev pub allows_hsm : Text → Bool
allows_hsm fstype = any (λ known. text_eq known fstype) allow_hsm

unfoldable pub check_fstype : MountRow → Check
check_fstype row = record {
  name = "sync-root-fstype";
  outcome =
      if allows_hsm row.fstype
      then pass (Message.fstype_allows_hsm row.fstype)
      else if text_eq row.fstype (codes "tmpfs")
      then refuse Message.fstype_is_tmpfs
      else refuse (Message.fstype_lacks_hsm row.fstype);
}

unfoldable pub check_exposure : List MountRow → MountRow → Check
check_exposure rows ours = record {
  name = "exposure";
  outcome =
      if is_empty (exposures rows ours)
      then pass Message.nothing_exposed
      else refuse (Message.exposed_by (exposures rows ours));
}

-- The outcome and the line to append.
fstab_outcome : Option FstabEntry → Option Text → Bool → Outcome × Option Text
fstab_outcome none suggestion consent = (caveat Message.fstab_not_checked, none)
fstab_outcome (some no_auto) suggestion consent = (pass Message.fstab_has_noauto, none)
fstab_outcome (some (automatic line)) suggestion consent =
    (refuse (Message.fstab_lacks_noauto line), none)
fstab_outcome (some absent) suggestion true =
    (pass (Message.fstab_will_append (unwrap_or suggestion [])), some (unwrap_or suggestion []))
fstab_outcome (some absent) suggestion false =
    (refuse (Message.fstab_has_no_entry (unwrap_or suggestion [])), none)

unfoldable pub check_fstab : Option FstabEntry → Option Text → Bool → Check × Option Text
unfolding fstab_outcome
check_fstab entry suggestion consent =
    let (outcome, append) = fstab_outcome entry suggestion consent in
    (record { name = "fstab"; outcome = outcome }, append)

secrets_outcome : SecretService → Bool → Outcome
secrets_outcome SecretService.owned real = pass Message.secrets_owned
secrets_outcome SecretService.activatable real = pass Message.secrets_activatable
secrets_outcome (SecretService.unreachable d) real = refuse (Message.secrets_unreachable d)
secrets_outcome (SecretService.unverifiable d) true = refuse (Message.secrets_unverified d)
secrets_outcome (SecretService.unverifiable d) false =
    caveat (Message.secrets_unverified_in_rehearsal d)

unfoldable pub check_secrets : SecretService → Bool → Check
unfolding secrets_outcome
check_secrets s real = record { name = "secret-service"; outcome = secrets_outcome s real }

tray_outcome : Plasmoid → Option Tray → Outcome × Tray
tray_outcome (Plasmoid.present path) none = (refuse (Message.two_tray_surfaces path), no_tray)
tray_outcome (Plasmoid.present path) (some sni) =
    (caveat (Message.deliberate_second_icon path), sni)
tray_outcome (Plasmoid.present path) (some plasmoid) =
    (pass (Message.applet_is_tray path), plasmoid)
tray_outcome Plasmoid.absent none = (pass Message.unit_is_tray, sni)
tray_outcome Plasmoid.absent (some plasmoid) = (caveat Message.applet_not_installed, plasmoid)
tray_outcome Plasmoid.absent (some sni) = (pass Message.unit_is_chosen_tray, sni)
tray_outcome _ (some no_tray) = (caveat Message.no_tray_icon, no_tray)

unfoldable pub check_tray : Plasmoid → Option Tray → Check × Tray
unfolding tray_outcome
check_tray applet chosen =
    let (outcome, tray) = tray_outcome applet chosen in
    (record { name = "tray-surface"; outcome = outcome }, tray)

-- `filter_map(|b| binary_state(bin_dir, b).err())`
unfoldable pub missing_binaries : Machine → Text → List Text → List BinaryFault
missing_binaries m bin_dir [] = []
missing_binaries m bin_dir (b ∷ wanted) =
    let rest = missing_binaries m bin_dir wanted in
    elim (binary_state m.metadata bin_dir b) [ err fault ↦ fault ∷ rest | ok present ↦ rest ]

abbrev pub wanted_binaries : Tray → List Text
wanted_binaries tray = if is_sni tray then binaries ++ tray_binary ∷ [] else binaries

unfoldable pub check_binaries : Machine → Text → Tray → Check
unfolding missing_binaries
check_binaries m bin_dir tray =
    let missing = missing_binaries m bin_dir (wanted_binaries tray) in
    record {
      name = "binaries";
      outcome =
          if is_empty missing
          then pass (Message.binaries_present bin_dir)
          else refuse (Message.binaries_missing missing);
    }

unfoldable pub directive_hits : List UnitFile → List (Text × ℕ × Text)
directive_hits [] = []
directive_hits (unit ∷ units) =
    let rest = directive_hits units in
    if must_share_host_namespace unit.name
    then map (λ (line, directive). (unit.name, line, directive)) (namespace_directives unit.text)
      ++ rest
    else rest

unfoldable pub check_unit_text : Rendered → Check
unfolding directive_hits
check_unit_text rendered =
    let hits = directive_hits (all_units rendered) in
    record {
      name = "unit-text";
      outcome =
          if is_empty hits
          then pass Message.no_namespace_directive
          else refuse (Message.namespace_directive_found hits);
    }
