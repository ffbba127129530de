-- ===== src/Installer/Main.antt =====
-- How crates/installer/src/main.rs comes to an uninstall plan: whether the sync root is mounted is
-- what a look at the mount table says.
use one_drive_hydration.Prelude.{◌≡◌, Bool, false, is_some}
use one_drive_hydration.Text.{Text}
use one_drive_hydration.Installer.Facts.{Facts}
use one_drive_hydration.Installer.Mounts.{parse_mountinfo, find_mount}
use one_drive_hydration.Installer.Mounts.Escape.{HasWide, find_mount-parse_mountinfo}
use one_drive_hydration.Installer.Plan.{Options, Machine, Planned}
use one_drive_hydration.Installer.Plan.Uninstall.{uninstall}

unfoldable pub planned_uninstall : Machine → Facts → Text → Bool → Options → Planned
planned_uninstall m facts table and_unmount opts =
    let mounted = is_some (find_mount (parse_mountinfo table) facts.mount) in
    uninstall m facts mounted and_unmount opts

-- A sync root whose path has a character above U+00FF counts as not mounted, whatever the mount
-- table says: the plan is the one for a root that is not mounted, which has no `umount` and stops
-- the helper.
pub planned_uninstall-HasWide :
    (m : Machine) (facts : Facts) (table : Text) (and_unmount : Bool) (opts : Options)
    → HasWide facts.mount
    → planned_uninstall m facts table and_unmount opts ≡ uninstall m facts false and_unmount opts
unfolding planned_uninstall
planned_uninstall-HasWide m facts table and_unmount opts w =
    rw (find_mount-parse_mountinfo table facts.mount w)
