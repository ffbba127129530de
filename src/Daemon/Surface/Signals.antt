-- ===== src/Daemon/Surface/Signals.antt =====
-- `publish_state`, `publish_credential` and `publish_desktop` of crates/onedrive-daemon/src/dbus.rs: the
-- signals that a new state makes, none of which fails to be sent.
pub mod Mirror
use one_drive_hydration.Prelude.{
  bool_eq, ℕ, Bool, true, false, not, Option, none, some, List, [], ◌∷◌, ◌++◌, ◌==◌, if◌then◌else◌,
}
use one_drive_hydration.Text.{Text, text_eq}
use one_drive_hydration.Text.FilePath.{texts_eq}
use one_drive_hydration.Daemon.AuthState.{CredentialState, state_eq, as_wire}
use one_drive_hydration.Daemon.Bus.{DaemonState}

-- `PropertiesChanged` for one property, with its new value, or a signal of the interface.
pub data Signal : Type 0 where
  daemon_running_changed indexing_changed index_changed : Bool → Signal
  unsent_changed excluded_changed exposures_changed downloading_changed download_changed :
      ℕ → Signal
  uploading_changed active_uploads_changed : List Text → Signal
  state_changed : Bool → ℕ → ℕ → ℕ → Signal
  credential_state_changed credential_changed : Text → Signal
  job_changed desktop_state_changed desktop_changed : Text → Signal

abbrev pub when : Bool → Signal → List Signal
when b signal = if b then signal ∷ [] else []

unfoldable pub publish_state : DaemonState → DaemonState → List Signal
publish_state previous state =
    when (not (bool_eq previous.daemon_running state.daemon_running))
      (daemon_running_changed state.daemon_running)
    ++ (when (not (previous.unsent == state.unsent)) (unsent_changed state.unsent)
        ++ (when (not (previous.excluded == state.excluded)) (excluded_changed state.excluded)
            ++ (when (not (previous.exposures == state.exposures))
                  (exposures_changed state.exposures)
                ++ (when (not (previous.downloading == state.downloading))
                      (downloading_changed state.downloading)
                    ++ (when (not (bool_eq previous.indexing state.indexing))
                          (indexing_changed state.indexing)
                        ++ (when (not (texts_eq previous.uploading state.uploading))
                              (uploading_changed state.uploading)
                            ++ (state_changed state.daemon_running state.unsent state.excluded
                                  state.exposures
                                ∷ (when (not (previous.downloading == state.downloading))
                                      (download_changed state.downloading)
                                    ++ (when (not (bool_eq previous.indexing state.indexing))
                                          (index_changed state.indexing)
                                        ++ when (not (texts_eq previous.uploading state.uploading))
                                            (active_uploads_changed state.uploading))))))))))

unfoldable pub publish_credential : CredentialState → CredentialState → List Signal
publish_credential previous credential =
    when (not (state_eq previous credential)) (credential_state_changed (as_wire credential))
    ++ credential_changed (as_wire credential) ∷ []

-- The last job and desktop state that were shown.
pub record Desktop : Type 0 where
  pub last_job : Text
  pub desktop_state : Text

unfoldable pub publish_desktop : Text → Text → Desktop → List Signal × Desktop
publish_desktop job state d = (
  when (not (text_eq d.last_job job)) (job_changed job)
      ++ (if text_eq d.desktop_state state
          then []
          else desktop_state_changed state ∷ desktop_changed state ∷ []),
  record {
    last_job = if text_eq d.last_job job then d.last_job else job;
    desktop_state = if text_eq d.desktop_state state then d.desktop_state else state;
  },
)
