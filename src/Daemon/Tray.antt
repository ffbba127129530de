-- ===== src/Daemon/Tray.antt =====
-- `Presentation` and `present` of crates/onedrive-daemon/src/tray.rs: what the panel shows for a state
-- of the daemon.
pub mod Desktop
pub mod Honest
pub mod Attention
pub mod Menu
pub mod Show
pub mod Turn
use one_drive_hydration.Prelude.{
  ℕ, Bool, true, false, not, ◌&&◌, ◌||◌, Option, none, some, List, [], ◌∷◌, ◌++◌, ltb, length, ◌==◌,
  is_empty, if◌then◌else◌,
}
use one_drive_hydration.Text.{Text, codes}
use one_drive_hydration.Text.Number.{decimal}
use one_drive_hydration.Daemon.AuthState.{CredentialState, unsaved, rejected, state_eq}
use one_drive_hydration.Daemon.Bus.{DaemonState}

-- The names of the icons.
pub data Icon : Type 0 where
  icon_synced icon_unsent icon_syncing icon_exposed icon_stopped : Icon

-- StatusNotifierItem's `Status`.
pub data SniStatus : Type 0 where
  active needs_attention : SniStatus

pub record Presentation : Type 0 where
  pub icon : Icon
  pub sni_status : SniStatus
  pub headline : Text
  pub detail : Text
  pub placeholders_row : Option Text
  pub downloading_row : Option Text
  pub indexing_row : Bool
  pub uploading_row : Option Text
  pub offer_sign_in : Bool

unfoldable pub count : ℕ → Text → Text → Text
count n singular plural = decimal n ++ 32 ∷ (if n == 1 then singular else plural)

unfoldable pub placeholders_line : ℕ → Text
placeholders_line excluded =
    if excluded == 0
    then []
    else if excluded == 1
    then codes " 1 file is available online only."
    else codes " " ++ (decimal excluded ++ codes " files are available online only.")

unfoldable pub store_caveat : CredentialState → Text
store_caveat unsaved = codes " Unlock your keyring to keep OneDrive signed in after restarting."
store_caveat _ = []

-- The rows that a presentation has none of while the daemon does not run.
unfoldable pub without_rows : Text → Text → Presentation
without_rows headline detail = record {
  icon = icon_stopped;
  sni_status = active;
  headline = headline;
  detail = detail;
  placeholders_row = none;
  downloading_row = none;
  indexing_row = false;
  uploading_row = none;
  offer_sign_in = false;
}

abbrev pub file_count : ℕ → Text
file_count n = count n (codes "file") (codes "files")

uploading_line : List Text → Option Text
uploading_line [] = none
uploading_line (only ∷ []) = some (codes "Uploading " ++ only)
uploading_line (a ∷ b ∷ more) = some (codes "Uploading " ++ file_count (length (a ∷ b ∷ more)))

-- The rows that every presentation of a running daemon has.
unfoldable pub with_rows :
    DaemonState → CredentialState → Icon → SniStatus → Text → Text → Presentation
unfolding uploading_line count
with_rows state credential icon status headline detail = record {
  icon = icon;
  sni_status = status;
  headline = headline;
  detail = detail;
  placeholders_row = some (codes "Online-only: " ++ file_count state.excluded);
  downloading_row =
      if ltb 0 state.downloading
      then some (codes "Downloading " ++ file_count state.downloading)
      else none;
  indexing_row = state.indexing;
  uploading_row = uploading_line state.uploading;
  offer_sign_in = state_eq credential rejected;
}

unfoldable pub still_waiting : ℕ → Text
unfolding count
still_waiting unsent =
    if ltb 0 unsent
    then codes " "
      ++ (count unsent (codes "change is") (codes "changes are")
          ++ codes " still waiting to upload.")
    else []

unfoldable pub exposed_before : ℕ → Text
unfolding count
exposed_before exposures =
    if ltb 0 exposures
    then codes " Before it stopped, "
      ++ (count exposures (codes "other mount") (codes "other mounts")
          ++ codes " exposed the sync folder.")
    else []

abbrev pub is_active : DaemonState → Bool
is_active state = ltb 0 state.downloading || state.indexing || not (is_empty state.uploading)

-- Headline and detail of the activity.
unfoldable pub activity : DaemonState → Text × Text
unfolding count
activity state =
    if ltb 0 state.downloading && not (is_empty state.uploading)
    then (codes "Syncing files", codes "Uploading and downloading your files.")
    else if not (is_empty state.uploading)
    then (
      codes "Uploading " ++ file_count (length state.uploading),
      codes "Saving your changes to OneDrive.",
    )
    else if ltb 0 state.downloading
    then (
      codes "Downloading " ++ file_count state.downloading,
      codes "Making your files available on this device.",
    )
    else (codes "Checking for changes", codes "Looking for updates in OneDrive.")

abbrev pub waiting_headline : ℕ → Text
waiting_headline unsent =
    count unsent (codes "change") (codes "changes") ++ codes " waiting to upload"

abbrev pub waiting_detail : DaemonState → CredentialState → Text
waiting_detail state credential =
    count state.unsent (codes "local change has") (codes "local changes have")
    ++ (codes " not reached OneDrive yet."
        ++ (placeholders_line state.excluded ++ store_caveat credential))

-- A running daemon, the most urgent knowledge first.
unfoldable pub present_running : DaemonState → CredentialState → Presentation
unfolding with_rows still_waiting store_caveat activity placeholders_line state_eq
present_running state credential =
    if ltb 0 state.exposures
    then with_rows state credential icon_exposed needs_attention
        (codes "Check your OneDrive folder")
        (codes
            "Files opened through an extra mount may be empty. Unmount the extra location before opening files there."
          ++ (still_waiting state.unsent ++ store_caveat credential))
    else if state_eq credential rejected
    then with_rows state credential icon_stopped needs_attention (codes "Sign-in required") (
        codes
          "Sign in again to sync changes and open online-only files. Your synced files are safe in OneDrive."
        ++ still_waiting state.unsent)
    else if is_active state
    then with_rows state credential icon_syncing active (activity state).0
        ((activity state).1 ++ store_caveat credential)
    else if ltb 0 state.unsent
    then with_rows state credential icon_unsent active (waiting_headline state.unsent)
        (waiting_detail state credential)
    else with_rows state credential icon_synced active (codes "Up to date")
        (codes "All local changes are saved in OneDrive." ++ store_caveat credential)

-- `none`: the state service is not on the bus.
unfoldable pub present : Option DaemonState → CredentialState → Presentation
unfolding without_rows exposed_before present_running
present none credential =
    without_rows (codes "Sync status unavailable")
      (codes "Waiting to reconnect to OneDrive. Your synced files are safe in OneDrive.")
present (some state) credential =
    if not state.daemon_running
    then without_rows (codes "Sync is stopped") (
        codes
          "Online-only files will be available when sync starts. Your synced files are safe in OneDrive."
        ++ exposed_before state.exposures)
    else present_running state credential
