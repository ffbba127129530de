-- ===== src/Installer/Units.antt =====
-- crates/installer/src/units.rs: the unit texts and their rendering. The template files that the
-- source includes are the fields of `Templates`, as they are for the tests of the source.
pub mod Scan
pub mod Directory
use one_drive_hydration.Prelude.{
  Bool, true, false, Option, none, some, List, [], ◌∷◌, ◌++◌, unwrap_or, if◌then◌else◌,
}
use one_drive_hydration.Text.{Text, codes, replace}
use one_drive_hydration.Text.FilePath.{strip_path}
use one_drive_hydration.Installer.Facts.{Facts, Tray, is_sni}
use one_drive_hydration.Text.Number.{decimal}

pub record UnitFile : Type 0 where
  pub name : Text
  pub text : Text

pub record Templates : Type 0 where
  pub hydrationd_service : Text
  pub hydrationd_path : Text
  pub sync_service : Text
  pub dbus_service : Text
  pub tray_service : Text
  pub dbus_activation : Text

pub record Rendered : Type 0 where
  pub system : List UnitFile
  pub user : List UnitFile
  pub bus_services : List UnitFile

-- `Rendered::all`
unfoldable pub all_units : Rendered → List UnitFile
all_units r = r.system ++ (r.user ++ r.bus_services)

abbrev pub tray_unit : Text
tray_unit = codes "onedrive-hydration-tray.service"

-- A path below `base` by the specifier for `base`, and any other path as it is.
specifier_form : Text → Text → Text → Text
unfolding strip_path
specifier_form specifier base path = elim (strip_path base path) [
  | some rest ↦ specifier ++ codes "/" ++ rest
  | none ↦ path
]

-- The closure `sub` of `render`.
unfoldable pub substitute : Facts → Text → Text
unfolding replace decimal specifier_form
substitute f template =
    let mount_user = specifier_form (codes "%h") f.home f.mount in
    let socket_user = specifier_form (codes "%t") (codes "/run/user/" ++ decimal f.uid) f.socket in
    replace (codes "@BIN@") f.bin_dir (
      replace (codes "@CLIENT_ID@") f.client_id (
        replace (codes "@SOCKET@") f.socket (
          replace (codes "@SOCKET_USER@") socket_user (
            replace (codes "@MOUNT@") f.mount (
              replace (codes "@MOUNT_USER@") mount_user (
                replace (codes "@HOME@") f.home (
                  replace (codes "@UID@") (decimal f.uid)
                    (replace (codes "@USER@") f.user template))))))))

abbrev tray_units : Tray → Text → List UnitFile
tray_units tray text = if is_sni tray then record { name = tray_unit; text = text } ∷ [] else []

unfoldable pub render : Templates → Facts → Tray → Rendered
render t f tray = record {
  system =
      record { name = codes "hydrationd.service"; text = substitute f t.hydrationd_service }
      ∷ record { name = codes "hydrationd.path"; text = substitute f t.hydrationd_path }
      ∷ [];
  user =
      record { name = codes "onedrive-hydration.service"; text = substitute f t.sync_service }
      ∷ record {
        name = codes "onedrive-hydration-dbus.service";
        text = substitute f t.dbus_service;
      }
      ∷ tray_units tray (substitute f t.tray_service);
  bus_services =
      record {
        name = codes "io.github.franzjeger.OneDriveHydration.service";
        text = substitute f t.dbus_activation;
      }
      ∷ [];
}
