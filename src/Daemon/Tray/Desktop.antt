-- ===== src/Daemon/Tray/Desktop.antt =====
-- `DesktopStatus` and `present_with_desktop` of crates/onedrive-daemon/src/tray.rs. The values of the
-- JSON library and how they are read are arguments.
use one_drive_hydration.Prelude.{
  ℕ, Bool, false, not, ◌&&◌, ◌||◌, Option, none, some, List, ◌++◌, ltb, length, unwrap_or, ◌==◌,
  if◌then◌else◌,
}
use one_drive_hydration.Text.{Text, codes, text_eq}
use one_drive_hydration.Text.Number.{decimal}
use one_drive_hydration.Daemon.AuthState.{CredentialState, rejected, state_eq}
use one_drive_hydration.Daemon.Bus.{DaemonState}
use one_drive_hydration.Daemon.Tray.{
  icon_unsent, icon_syncing, icon_stopped, active, needs_attention, Presentation, is_active,
  present,
}

pub record DesktopStatus : Type 0 where
  pub paused : Bool
  pub issues : ℕ
  pub excluded_folders : ℕ
  pub resolving : Bool

abbrev pub no_desktop : DesktopStatus
no_desktop = record { paused = false; issues = 0; excluded_folders = 0; resolving = false }

-- A JSON library: indexing by a key, which never fails, and the readings of a value.
pub record Json : Type 1 where
  pub Node : Type 0
  pub from_str : Text → Option Node
  pub index : Node → Text → Node
  pub is_true : Node → Bool
  pub as_bool : Node → Option Bool
  pub as_array : Node → Option (List Node)

module _ (json : Json) where
  count_of : Option (List json.Node) → ℕ
  count_of none = 0
  count_of (some nodes) = length nodes

  status_of : Option json.Node → DesktopStatus
  unfolding count_of
  status_of none = no_desktop
  status_of (some v) =
      if not (json.is_true (json.index v (codes "available"))) then no_desktop else record {
        paused = unwrap_or (json.as_bool (json.index v (codes "paused"))) false;
        issues = count_of (json.as_array (json.index v (codes "issues")));
        excluded_folders = count_of (json.as_array (json.index v (codes "selection")));
        resolving = json.is_true (json.index (json.index v (codes "resolution")) (codes "running"));
      }

  -- `DesktopStatus::parse`
  unfoldable pub parse_desktop : Text → DesktopStatus
  unfolding status_of
  parse_desktop text = status_of (json.from_str text)

-- Folders that are not synced are named when there is nothing else to say.
unfoldable pub with_excluded : DesktopStatus → Presentation → Presentation
unfolding text_eq
with_excluded desktop p =
    if text_eq p.headline (codes "Up to date") && ltb 0 desktop.excluded_folders
    then record p {
      detail =
          codes "Selected folders are up to date. "
          ++ (decimal desktop.excluded_folders
              ++ codes " folder(s) are not synced on this device.");
    }
    else p

unfoldable pub runs_unexposed : Option DaemonState → Bool
runs_unexposed none = false
runs_unexposed (some s) = s.daemon_running && s.exposures == 0

unfoldable pub is_some_active : Option DaemonState → Bool
is_some_active none = false
is_some_active (some s) = is_active s

unfoldable pub overlaid : Bool → DesktopStatus → Presentation → Presentation
overlaid busy desktop p =
    if desktop.resolving
    then record p {
      icon = icon_syncing;
      sni_status = active;
      headline = codes "Resolving file conflict";
      detail = codes "Recovery copies are retained. Open the OneDrive panel for progress.";
    }
    else if ltb 0 desktop.issues
    then record p {
      icon = icon_unsent;
      sni_status = needs_attention;
      headline = codes "Needs attention";
      detail =
          decimal desktop.issues
          ++ codes " file(s) need review. Open the OneDrive panel for details.";
    }
    else record p {
      icon = icon_stopped;
      headline = if busy then codes "Pausing after current work" else codes "Sync paused";
      detail = codes "Background sync is paused. Files you open can still download.";
    }

unfoldable pub present_with_desktop :
    Option DaemonState → CredentialState → DesktopStatus → Presentation
unfolding with_excluded runs_unexposed is_some_active overlaid state_eq
present_with_desktop state credential desktop =
    let p = with_excluded desktop (present state credential) in
    if (desktop.paused || ltb 0 desktop.issues || desktop.resolving)
      && runs_unexposed state
      && not (state_eq credential rejected)
    then overlaid (is_some_active state) desktop p
    else p
