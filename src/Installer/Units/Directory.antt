-- ===== src/Installer/Units/Directory.antt =====
-- Where each generated unit lands, relative to a prefix (crates/installer/src/units.rs).
use one_drive_hydration.Prelude.{unwrap_or}
use one_drive_hydration.Text.{Text, codes}
use one_drive_hydration.Text.FilePath.{join, strip_path}

unfoldable pub system_unit_dir : Text → Text
system_unit_dir prefix = join prefix (codes "etc/systemd/system")

unfoldable pub user_unit_dir : Text → Text → Text
user_unit_dir prefix home =
    join (join prefix (unwrap_or (strip_path (codes "/") home) home)) (codes ".config/systemd/user")

unfoldable pub dbus_service_dir : Text → Text → Text
dbus_service_dir prefix home =
    join (join prefix (unwrap_or (strip_path (codes "/") home) home))
      (codes ".local/share/dbus-1/services")
