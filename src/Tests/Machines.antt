-- ===== src/Tests/Machines.antt =====
-- A user, a machine and a system that the tests run on.
use one_drive_hydration.Prelude.{true, false, none, some, ok, err, not_found}
use one_drive_hydration.Text.{Text, codes}
use one_drive_hydration.Installer.Facts.{Facts, no_tray}
use one_drive_hydration.Installer.Units.{Templates}
use one_drive_hydration.Installer.Kernel.{measured}
use one_drive_hydration.Installer.Session.{Vantage, SecretService, Plasmoid}
use one_drive_hydration.Installer.Plan.{Observed, Options, Machine}
use one_drive_hydration.Installer.Plan.Execute.{System}

abbrev pub ada : Facts
ada = record {
  user = codes "ada";
  uid = 1000;
  gid = 1000;
  home = codes "/h";
  mount = codes "/h/o";
  socket = codes "/run/user/1000/onedrive-hydration.sock";
  client_id = codes "id";
  bin_dir = codes "/b";
}

abbrev pub templates : Templates
templates = record {
  hydrationd_service = codes "ExecStart=@BIN@/hydrationd @MOUNT@";
  hydrationd_path = codes "PathExists=@SOCKET@";
  sync_service = codes "User=@USER@";
  dbus_service = codes "Type=dbus";
  tray_service = codes "Type=simple";
  dbus_activation = codes "Name=x";
}

-- The sync root is a subvolume of its own.
abbrev pub mounted_table : Text
mounted_table = codes "36 35 0:40 /sync /h/o rw - btrfs /dev/sda1 rw,subvol=/sync\n"

abbrev pub bare_table : Text
bare_table = codes "35 1 0:40 /top / rw - btrfs /dev/sda1 rw,subvol=/top\n"

abbrev pub observed : Observed
observed = record {
  vantage = Vantage.host;
  kernel = measured (codes "6.15.1");
  mountinfo = mounted_table;
  fstab = codes "/dev/sda1 /h/o btrfs subvol=/sync,noauto 0 0\n";
  secrets = SecretService.owned;
  plasmoid = Plasmoid.absent;
}

abbrev pub for_real : Options
for_real = record {
  prefix = codes "/";
  dry_run = false;
  force = false;
  consent_fstab = true;
  tray = some no_tray;
}

abbrev pub in_a_copy : Options
in_a_copy = record {
  prefix = codes "/copy";
  dry_run = false;
  force = false;
  consent_fstab = true;
  tray = some no_tray;
}

abbrev pub for_show : Options
for_show = record {
  prefix = codes "/";
  dry_run = true;
  force = false;
  consent_fstab = true;
  tray = some no_tray;
}

abbrev pub root_machine : Machine
root_machine = record {
  euid = 0;
  metadata = λ p. ok (record { is_file = true; mode = 493 });
  exists = λ p. false;
  link_exists = λ p. false;
  read_to_string = λ p. err not_found;
  read_link = λ p. err not_found;
  by_uuid = none;
}

-- All requests succeed, and the mount table has no sync root any more.
abbrev pub willing : System
willing = record {
  euid = 0;
  exists = λ h p. true;
  create_dir = λ h p. ok tt;
  chown = λ h p o. ok tt;
  write = λ h p t. ok tt;
  rename = λ h p q. ok tt;
  read_link = λ h p. err not_found;
  symlink = λ h t p. ok tt;
  open_append = λ h p. ok tt;
  append = λ h p t. ok tt;
  remove_file = λ h p. ok tt;
  status = λ h argv. ok true;
  mountinfo = λ h. ok bare_table;
}
