-- ===== src/Installer/Plan/Placement.antt =====
-- `placement` and `retire_tray_unit` of crates/installer/src/plan.rs: where the units land.
use one_drive_hydration.Prelude.{not, ◌&&◌, none, some, List, [], ◌∷◌, ◌++◌, map, if◌then◌else◌}
use one_drive_hydration.Text.{Text, codes, strip_prefix}
use one_drive_hydration.Text.Words.{split_whitespace, lines, trim}
use one_drive_hydration.Text.FilePath.{join}
use one_drive_hydration.Installer.Facts.{Facts}
use one_drive_hydration.Installer.Units.{UnitFile, Rendered, tray_unit}
use one_drive_hydration.Installer.Units.Directory.{system_unit_dir, user_unit_dir, dbus_service_dir}
use one_drive_hydration.Installer.Plan.{
  Owner, Options, Machine, Action, write_file, symlink, remove_file, run,
}

abbrev pub wants : Text → Text
wants target = target ++ codes ".wants"

-- The enablement links of one line of a unit.
abbrev pub links_of_line : Text → Text → Text → Owner → Text → List Action
links_of_line name dir rt owner line = elim (strip_prefix (codes "WantedBy=") (trim line)) [
  | some targets ↦
      map (λ target. symlink (join (join dir (wants target)) name) (join rt name) owner)
        (split_whitespace targets)
  | none ↦ []
]

unfoldable pub links_of_lines : Text → Text → Text → Owner → List Text → List Action
links_of_lines name dir rt owner [] = []
links_of_lines name dir rt owner (line ∷ rest) =
    links_of_line name dir rt owner line ++ links_of_lines name dir rt owner rest

-- The closure `place`.
unfoldable pub place : Text → Text → Owner → UnitFile → List Action
place dir rt owner unit =
    write_file (join dir unit.name) unit.text owner
    ∷ links_of_lines unit.name dir rt owner (lines unit.text)

unfoldable pub place_all : Text → Text → Owner → List UnitFile → List Action
place_all dir rt owner [] = []
place_all dir rt owner (unit ∷ units) = place dir rt owner unit ++ place_all dir rt owner units

unfoldable pub placement : Rendered → Facts → Options → List Action
placement rendered facts opts =
    let owner = some (facts.uid, facts.gid) in
    place_all (system_unit_dir opts.prefix) (system_unit_dir (codes "/")) none rendered.system
    ++ (place_all (user_unit_dir opts.prefix facts.home) (user_unit_dir (codes "/") facts.home)
          owner rendered.user
        ++ place_all (dbus_service_dir opts.prefix facts.home)
            (dbus_service_dir (codes "/") facts.home) owner rendered.bus_services)

abbrev pub user_machine : Facts → Text
user_machine facts = codes "--machine=" ++ (facts.user ++ codes "@.host")

abbrev pub tray_link : Text → Text
tray_link usr_dir = join (join usr_dir (codes "graphical-session.target.wants")) tray_unit

unfoldable pub retire_tray_unit : Machine → Facts → Options → List Action
retire_tray_unit m facts opts =
    let usr_dir = user_unit_dir opts.prefix facts.home in
    let unit = join usr_dir tray_unit in
    if not (m.exists unit) && not (m.link_exists (tray_link usr_dir))
    then []
    else run
        (codes "systemctl"
          ∷ codes "--user"
          ∷ user_machine facts
          ∷ codes "disable"
          ∷ codes "--now"
          ∷ tray_unit
          ∷ [])
        "another surface is this deployment's tray now; stop the second icon before removing its unit"
      ∷ remove_file unit
      ∷ remove_file (tray_link usr_dir)
      ∷ []
