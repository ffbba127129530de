-- ===== src/Installer/Session.antt =====
-- The other measurements of crates/installer/src/probes.rs: the mount namespace, Secret Service,
-- the Plasma applet and the payload binaries. What the machine answers is an argument.
use one_drive_hydration.Prelude.{
  ℕ, ◌%◌, ◌/◌, Bool, true, false, not, ◌&&◌, ◌||◌, List, [], ◌∷◌, if◌then◌else◌, unwrap_or, is_some,
  Result, ok, err, ErrorKind, ◌==◌,
}
use one_drive_hydration.Text.{Text, codes, text_eq, split_once}
use one_drive_hydration.Text.FilePath.{join, strip_path, path_eq}

pub data VantageDetail : Type 0 where
  namespaces_differ : Text → Text → VantageDetail
  tables_differ : VantageDetail
  tables_unread : ErrorKind → VantageDetail

pub data Vantage : Type 0 where
  host : Vantage
  sandboxed unknown : VantageDetail → Vantage

by_tables : Result ErrorKind Text → Result ErrorKind Text → Vantage
by_tables (ok ours) (ok init) = if text_eq ours init then host else sandboxed tables_differ
by_tables _ (err e) = unknown (tables_unread e)
by_tables (err e) (ok init) = unknown (tables_unread e)

-- `vantage`, over the two namespace links and the two mount tables, this process's first.
unfoldable pub vantage :
    Result ErrorKind Text
    → Result ErrorKind Text
    → Result ErrorKind Text
    → Result ErrorKind Text
    → Vantage
unfolding by_tables
vantage (ok ours) (ok init) table init_table =
    if path_eq ours init then host else sandboxed (namespaces_differ ours init)
vantage (ok ours) (err e) table init_table = by_tables table init_table
vantage (err e) init table init_table = by_tables table init_table

pub data SecretDetail : Type 0 where
  no_session_bus : Text → SecretDetail
  foreign_bus : ℕ → ℕ → SecretDetail
  busctl_failed : Text → SecretDetail
  neither_owned_nor_activatable : SecretDetail

pub data SecretService : Type 0 where
  owned activatable : SecretService
  unreachable unverifiable : SecretDetail → SecretService

abbrev contains : Text → Text → Bool
contains s pattern = is_some (split_once pattern s)

-- The closure `run`: only the bus's own uid and root may ask.
ask : ℕ → ℕ → Result Text Text → Result SecretDetail Text
ask euid uid answer =
    if euid == uid || euid == 0
    then elim answer [ ok reply ↦ ok reply | err e ↦ err (busctl_failed e) ]
    else err (foreign_bus uid euid)

by_names : Result SecretDetail Text → SecretService
by_names (err detail) = unreachable detail
by_names (ok names) =
    if contains names (codes "\"org.freedesktop.secrets\"")
    then activatable
    else unreachable neither_owned_nor_activatable

by_owner : ℕ → ℕ → Result SecretDetail Text → Result SecretDetail Text → SecretService
by_owner euid uid (ok reply) names = if contains reply (codes "true") then owned else by_names names
by_owner euid uid (err detail) names =
    if not (euid == uid) && not (euid == 0) then unverifiable detail else unreachable detail

-- `secret_service_at`, over whether the bus exists and the answers to the two calls of `busctl`.
unfoldable pub secret_service_at :
    Bool → ℕ → ℕ → Text → Result Text Text → Result Text Text → SecretService
unfolding by_owner by_names ask split_once
secret_service_at false euid uid bus has_owner names = unreachable (no_session_bus bus)
secret_service_at true euid uid bus has_owner names =
    by_owner euid uid (ask euid uid has_owner) (ask euid uid names)

pub data Plasmoid : Type 0 where
  present : Text → Plasmoid
  absent : Plasmoid

abbrev pub plasmoid_id : Text
plasmoid_id = codes "io.github.franzjeger.OneDriveHydration"

unfoldable pub plasmoid_dirs : Text → Text → List Text
plasmoid_dirs prefix home =
    join (join prefix (unwrap_or (strip_path (codes "/") home) home))
      (codes ".local/share/plasma/plasmoids")
    ∷ join prefix (codes "usr/share/plasma/plasmoids")
    ∷ []

-- The first directory that holds the package's metadata.
package_in : (Text → Bool) → List Text → Plasmoid
package_in is_file [] = absent
package_in is_file (dir ∷ dirs) =
    let later = package_in is_file dirs in
    let pkg = join dir plasmoid_id in
    if is_file (join pkg (codes "metadata.json")) then present pkg else later

unfoldable pub plasmoid_package : (Text → Bool) → Text → Text → Plasmoid
unfolding package_in plasmoid_dirs
plasmoid_package is_file prefix home = package_in is_file (plasmoid_dirs prefix home)

unfoldable pub plasmoid_observed : (Text → Bool) → Text → Text → Plasmoid
unfolding path_eq
plasmoid_observed is_file prefix home = elim (plasmoid_package is_file prefix home) [
  | present pkg ↦ present pkg
  | absent ↦
      if path_eq prefix (codes "/") then absent else plasmoid_package is_file (codes "/") home
]

-- What `std::fs::metadata` says of a path.
pub record Metadata : Type 0 where
  pub is_file : Bool
  pub mode : ℕ

pub data BinaryFault : Type 0 where
  unreadable : Text → ErrorKind → BinaryFault
  not_regular not_executable : Text → BinaryFault

-- One of the bits 0o111.
executable : ℕ → Bool
executable mode = mode % 2 == 1 || mode / 8 % 2 == 1 || mode / 64 % 2 == 1

unfoldable pub binary_state :
    (Text → Result ErrorKind Metadata) → Text → Text → Result BinaryFault (Unit {0})
unfolding executable
binary_state metadata dir name =
    let p = join dir name in
    elim (metadata p) [
      | err e ↦ err (unreadable p e)
      | ok m ↦
          if not m.is_file
          then err (not_regular p)
          else if executable m.mode
          then ok tt
          else err (not_executable p)
    ]
