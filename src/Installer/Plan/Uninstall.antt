-- ===== src/Installer/Plan/Uninstall.antt =====
-- `uninstall` of crates/installer/src/plan.rs.
pub mod Safety
use one_drive_hydration.Prelude.{
  ℕ, String, Bool, true, false, not, ◌&&◌, ◌||◌, Option, none, some, List, [], ◌∷◌, ◌++◌, map,
  if◌then◌else◌,
}
use one_drive_hydration.Text.{Text, codes}
use one_drive_hydration.Text.FilePath.{join}
use one_drive_hydration.Installer.Facts.{Facts}
use one_drive_hydration.Installer.Units.{tray_unit}
use one_drive_hydration.Installer.Units.Directory.{system_unit_dir, user_unit_dir, dbus_service_dir}
use one_drive_hydration.Installer.Plan.{
  Message, Outcome, pass, refuse, Check, Options, Machine, Action, remove_file, run,
  verify_unmounted, manual, left_in_place, Planned, any_refused,
}
use one_drive_hydration.Installer.Plan.Placement.{user_machine}
use one_drive_hydration.Installer.Plan.Install.{root_checks}

safety_outcome : Text → Bool → Bool → Outcome
safety_outcome mount true false = refuse (Message.still_mounted mount)
safety_outcome mount true true = pass (Message.will_be_unmounted mount)
safety_outcome mount false and_unmount = pass (Message.not_mounted mount)

unfoldable pub uninstall_checks : Machine → Facts → Bool → Bool → Options → List Check
unfolding safety_outcome root_checks
uninstall_checks m facts mounted and_unmount opts =
    root_checks m opts
    ++ record { name = "mount-safety"; outcome = safety_outcome facts.mount mounted and_unmount }
      ∷ []

abbrev stop_trigger : Action
stop_trigger =
    run (codes "systemctl" ∷ codes "stop" ∷ codes "hydrationd.path" ∷ [])
      "disarm the trigger so nothing restarts the helper mid-removal"

-- The mount goes down first, and the helper with it; only without a mount is the helper stopped.
unfoldable pub take_down : Bool → Text → List Action
take_down true mount =
    run (codes "umount" ∷ mount ∷ [])
      "take the mount down; RequiresMountsFor= stops the helper with it"
    ∷ verify_unmounted mount
    ∷ []
take_down false mount =
    run (codes "systemctl" ∷ codes "stop" ∷ codes "hydrationd.service" ∷ [])
      "with no mount there is nothing to fail open; stop the helper if it is somehow still running"
    ∷ []

unfoldable pub disable_user_units : Machine → Facts → Text → Action
disable_user_units m facts usr_dir =
    run
      (codes "systemctl"
        ∷ codes "--user"
        ∷ user_machine facts
        ∷ codes "disable"
        ∷ codes "--now"
        ∷ codes "onedrive-hydration.service"
        ∷ codes "onedrive-hydration-dbus.service"
        ∷ (if m.exists (join usr_dir tray_unit) then tray_unit ∷ [] else []))
      "stop and disable the user half"

unfoldable pub removals : Facts → Options → List Action
removals facts opts =
    let sys_dir = system_unit_dir opts.prefix in
    let usr_dir = user_unit_dir opts.prefix facts.home in
    remove_file (join sys_dir (codes "hydrationd.service"))
    ∷ remove_file (join sys_dir (codes "hydrationd.path"))
    ∷ remove_file (join sys_dir (codes "multi-user.target.wants/hydrationd.path"))
    ∷ remove_file (join usr_dir (codes "onedrive-hydration.service"))
    ∷ remove_file (join usr_dir (codes "onedrive-hydration-dbus.service"))
    ∷ remove_file (join usr_dir tray_unit)
    ∷ remove_file (
        join (dbus_service_dir opts.prefix facts.home)
          (codes "io.github.franzjeger.OneDriveHydration.service"))
    ∷ remove_file (join usr_dir (codes "default.target.wants/onedrive-hydration.service"))
    ∷ remove_file (join usr_dir (codes "default.target.wants/onedrive-hydration-dbus.service"))
    ∷ remove_file (join usr_dir (codes "graphical-session.target.wants/" ++ tray_unit))
    ∷ []

unfoldable pub uninstall_actions : Machine → Facts → Bool → Options → List Action
uninstall_actions m facts mounted opts =
    stop_trigger
    ∷ (take_down mounted facts.mount
        ++ disable_user_units m facts (user_unit_dir opts.prefix facts.home)
          ∷ (removals facts opts
              ++ run (codes "systemctl" ∷ codes "daemon-reload" ∷ [])
                  "forget the removed system units"
                ∷ manual left_in_place
                ∷ []))

unfoldable pub uninstall : Machine → Facts → Bool → Bool → Options → Planned
uninstall m facts mounted and_unmount opts =
    let checks = uninstall_checks m facts mounted and_unmount opts in
    record {
      checks = checks;
      actions = if any_refused checks then none else some (uninstall_actions m facts mounted opts);
    }
