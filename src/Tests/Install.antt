-- ===== src/Tests/Install.antt =====
-- The theorems on what an installation accepts and what it writes, at concrete machines.
use one_drive_hydration.Prelude.{
  ◌≡◌, refl, is_some, some, true, false, [], ◌∷◌, All, ok, none, List,
}
use one_drive_hydration.Text.{codes, split_once}
use one_drive_hydration.Installer.Session.{binary_state}
use one_drive_hydration.Installer.Plan.{Action, write_file, symlink, Machine, real}
use one_drive_hydration.Installer.Plan.Collide.{collide, objection, verdict}
use one_drive_hydration.Installer.Plan.Collide.Fresh.{Fresh}
use one_drive_hydration.Installer.Plan.Collide.Repeat.{writes, collide-Present}
use one_drive_hydration.Installer.Plan.Install.Fresh.{Foreseen, install-Fresh}
use one_drive_hydration.Installer.Plan.Install.{
  install, install_actions, install_checks, root_checks, mount_checks, planned_actions,
}
use one_drive_hydration.Installer.Plan.Install.Acceptance.{acceptable, install-acceptable}
use one_drive_hydration.Text.FilePath.{path_eq}
use one_drive_hydration.Installer.Plan.Checks.{
  check_vantage, check_kernel, check_mount, check_fstype, check_exposure, check_fstab,
  check_secrets, check_tray, check_binaries, check_unit_text,
}
use one_drive_hydration.Installer.Mounts.{
  find_mount, parse_mountinfo, parse_row, unescape, exposures, exposes, covers, sort_dedup,
}
use one_drive_hydration.Text.Words.{lines, split_whitespace, is_whitespace, trim}
use one_drive_hydration.Installer.Fstab.{fstab_entry, entry_of_lines, entry_of_line}
use one_drive_hydration.Installer.Units.{render, substitute, all_units}
use one_drive_hydration.Installer.Units.Scan.{
  namespace_directives, must_share_host_namespace, line_directive, eq_ignore_ascii_case,
}
use one_drive_hydration.Installer.Plan.Placement.{
  placement, place_all, place, links_of_lines, retire_tray_unit,
}
use one_drive_hydration.Tests.Machines.{ada, templates, observed, for_real, root_machine}

install-acceptable_example :
    is_some (install root_machine ada templates observed for_real).actions
    ≡ acceptable root_machine ada templates observed for_real
install-acceptable_example = install-acceptable root_machine ada templates observed for_real

accepted :
    (install root_machine ada templates observed for_real).actions
    ≡ some (install_actions root_machine ada templates observed for_real)
unfolding install install_checks root_checks real path_eq check_vantage check_kernel check_mount
    find_mount parse_mountinfo lines parse_row split_once split_whitespace is_whitespace unescape
    mount_checks check_fstype check_exposure check_fstab check_secrets check_tray check_binaries
    check_unit_text exposures exposes covers sort_dedup fstab_entry entry_of_lines entry_of_line
    trim binary_state render substitute all_units namespace_directives must_share_host_namespace
    planned_actions placement place_all place links_of_lines retire_tray_unit collide objection
    verdict line_directive eq_ignore_ascii_case
accepted = refl

install-Fresh_example :
    All
      (Fresh (Foreseen ada observed for_real) root_machine)
      (install_actions root_machine ada templates observed for_real)
install-Fresh_example = install-Fresh root_machine ada templates observed for_real refl accepted

-- A machine where the one file and the one link stand already.
abbrev installed_machine : Machine
installed_machine = record {
  euid = 0;
  metadata = λ p. ok (record { is_file = true; mode = 493 });
  exists = λ p. true;
  link_exists = λ p. true;
  read_to_string = λ p. ok (codes "text");
  read_link = λ p. ok (codes "/target");
  by_uuid = none;
}

abbrev unit_and_link : List Action
unit_and_link =
    write_file (codes "/unit") (codes "text") none
    ∷ symlink (codes "/link") (codes "/target") none
    ∷ []

collide-Present_example :
    ((collide installed_machine false unit_and_link).1 ≡ [])
    × All (λ a. writes a ≡ false) (collide installed_machine false unit_and_link).0
collide-Present_example = collide-Present installed_machine false unit_and_link (refl, (refl, tt))
