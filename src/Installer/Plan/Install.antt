-- ===== src/Installer/Plan/Install.antt =====
-- `install` of crates/installer/src/plan.rs: the whole judgment, as data.
pub mod Acceptance
pub mod Fresh
use one_drive_hydration.Prelude.{
  ℕ, String, Bool, true, false, not, ◌&&◌, ◌||◌, Option, none, some, List, [], ◌∷◌, ◌++◌, map,
  if◌then◌else◌, ◌==◌,
}
use one_drive_hydration.Text.{Text, codes}
use one_drive_hydration.Text.FilePath.{join}
use one_drive_hydration.Installer.Facts.{Facts, Tray, is_sni}
use one_drive_hydration.Installer.Units.{Templates, Rendered, render}
use one_drive_hydration.Installer.Mounts.{MountRow, parse_mountinfo}
use one_drive_hydration.Installer.Fstab.{fstab_entry, fstab_suggestion}
use one_drive_hydration.Installer.Plan.{
  Message, refuse, Check, Observed, Options, real, Machine, Action, append_fstab, manual,
  installed_next_steps, Planned, any_refused,
}
use one_drive_hydration.Installer.Plan.Checks.{
  check_kernel, check_vantage, check_mount, check_fstype, check_exposure, check_fstab,
  check_secrets, check_tray, check_binaries, check_unit_text,
}
use one_drive_hydration.Installer.Plan.Placement.{placement, retire_tray_unit}
use one_drive_hydration.Installer.Plan.Collide.{collide}

unfoldable pub root_checks : Machine → Options → List Check
root_checks m opts =
    if real opts && not (m.euid == 0)
    then record { name = "root"; outcome = refuse Message.needs_root } ∷ []
    else []

-- The checks that need the mount's row, and the line for fstab.
unfoldable pub mount_checks :
    Machine
    → Facts
    → Observed
    → Options
    → List MountRow
    → Option MountRow
    → List Check × Option Text
mount_checks m facts observed opts rows none =
    ((check_fstab none none opts.consent_fstab).0 ∷ [], none)
mount_checks m facts observed opts rows (some row) =
    let (fstab, append) =
      check_fstab (some (fstab_entry observed.fstab facts.mount))
        (some (fstab_suggestion m.by_uuid row)) opts.consent_fstab in
    (check_fstype row ∷ check_exposure rows row ∷ fstab ∷ [], append)

abbrev collision : Message → Check
collision message = record { name = "collision"; outcome = refuse message }

unfoldable pub planned_actions : Machine → Facts → Options → Tray → Rendered → List Action
planned_actions m facts opts tray rendered =
    placement rendered facts opts ++ (if is_sni tray then [] else retire_tray_unit m facts opts)

append_action : Options → Option Text → List Action
append_action opts none = []
append_action opts (some line) = append_fstab (join opts.prefix (codes "etc/fstab")) line ∷ []

unfoldable pub install_checks : Machine → Facts → Templates → Observed → Options → List Check
install_checks m facts templates observed opts =
    let rows = parse_mountinfo observed.mountinfo in
    let (mount_check, row) = check_mount rows facts.mount in
    let (tray_check, tray) = check_tray observed.plasmoid opts.tray in
    let rendered = render templates facts tray in
    root_checks m opts
    ++ check_vantage observed.vantage
      ∷ check_kernel observed.kernel
      ∷ mount_check
      ∷ ((mount_checks m facts observed opts rows row).0
          ++ check_secrets observed.secrets (real opts)
            ∷ tray_check
            ∷ check_binaries m facts.bin_dir tray
            ∷ check_unit_text rendered
            ∷ map collision (collide m opts.force (planned_actions m facts opts tray rendered)).1)

unfoldable pub install_actions : Machine → Facts → Templates → Observed → Options → List Action
unfolding append_action
install_actions m facts templates observed opts =
    let rows = parse_mountinfo observed.mountinfo in
    let (mount_check, row) = check_mount rows facts.mount in
    let (tray_check, tray) = check_tray observed.plasmoid opts.tray in
    let rendered = render templates facts tray in
    (collide m opts.force (planned_actions m facts opts tray rendered)).0
    ++ (append_action opts (mount_checks m facts observed opts rows row).1
        ++ manual (installed_next_steps tray) ∷ [])

unfoldable pub install : Machine → Facts → Templates → Observed → Options → Planned
install m facts templates observed opts =
    let checks = install_checks m facts templates observed opts in
    record {
      checks = checks;
      actions =
          if any_refused checks
          then none
          else some (install_actions m facts templates observed opts);
    }
