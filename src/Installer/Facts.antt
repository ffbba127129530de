-- ===== src/Installer/Facts.antt =====
-- crates/installer/src/lib.rs (`Facts`) and `Tray` of crates/installer/src/units.rs.
use one_drive_hydration.Prelude.{
  ℕ, Bool, true, false, Option, none, some, ◌++◌, if◌then◌else◌, Result, ok, err,
}
use one_drive_hydration.Text.{Text, codes, text_eq}
use one_drive_hydration.Text.Number.{decimal}

pub record Facts : Type 0 where
  pub user : Text
  pub uid : ℕ
  pub gid : ℕ
  pub home : Text
  pub mount : Text
  pub socket : Text
  pub client_id : Text
  pub bin_dir : Text

-- What `getpwnam_r` reports of a user.
pub record Passwd : Type 0 where
  pub uid : ℕ
  pub gid : ℕ
  pub home : Text

-- `Facts::resolve`, over the outcome of `resolve_user`.
unfoldable pub resolve : Result Text Passwd → Text → Text → Text → Text → Result Text Facts
unfolding decimal
resolve (err e) user mount client_id bin_dir = err e
resolve (ok pw) user mount client_id bin_dir = ok (record {
  user = user;
  uid = pw.uid;
  gid = pw.gid;
  home = pw.home;
  mount = mount;
  socket = codes "/run/user/" ++ decimal pw.uid ++ codes "/onedrive-hydration.sock";
  client_id = client_id;
  bin_dir = bin_dir;
})

pub data Tray : Type 0 where
  sni plasmoid no_tray : Tray

abbrev pub is_sni : Tray → Bool
is_sni sni = true
is_sni _ = false

unfoldable pub as_str : Tray → Text
as_str sni = codes "sni"
as_str plasmoid = codes "plasmoid"
as_str no_tray = codes "none"

unfoldable pub parse_tray : Text → Option Tray
unfolding text_eq
parse_tray s =
    if text_eq s (codes "sni")
    then some sni
    else if text_eq s (codes "plasmoid")
    then some plasmoid
    else if text_eq s (codes "none")
    then some no_tray
    else none
