-- ===== src/Daemon/Tray/Turn.antt =====
-- The loop of `run` of crates/onedrive-daemon/src/tray.rs, with what its threads make of the signals of
-- the state service. Calls on the bus send their signals and register without an error that ends it.
pub mod Shown
pub mod Service
use one_drive_hydration.Prelude.{ℕ, Bool, false, Option, none, some, List, [], ◌∷◌, ◌++◌}
use one_drive_hydration.Text.{Text}
use one_drive_hydration.Daemon.AuthState.{CredentialState, unknown, from_wire}
use one_drive_hydration.Daemon.Bus.{DaemonState}
use one_drive_hydration.Daemon.Surface.Signals.{
  Signal, state_changed, download_changed, index_changed, active_uploads_changed,
  credential_changed, desktop_changed,
}
use one_drive_hydration.Daemon.Tray.{Presentation, present}
use one_drive_hydration.Daemon.Tray.Desktop.{
  Json, DesktopStatus, parse_desktop, present_with_desktop,
}
use one_drive_hydration.Daemon.Tray.Show.{Served, TraySignal, apply_presentation}

-- What the reading of the properties gives when the service returns to the bus.
pub record ColdRead : Type 0 where
  pub read_desktop : DesktopStatus
  pub read_state : Option DaemonState
  pub read_credential : CredentialState

pub data TrayEvent : Type 0 where
  desktop_event : DesktopStatus → TrayEvent
  state_event : DaemonState → TrayEvent
  credential_event : CredentialState → TrayEvent
  download_event : ℕ → TrayEvent
  indexing_event : Bool → TrayEvent
  uploads_event : List Text → TrayEvent
  sign_in service_gone watcher_returned quit bus_lost : TrayEvent
  service_returned : ColdRead → TrayEvent

-- What the loop does besides showing a presentation.
pub data Errand : Type 0 where
  begin_enrollment register_with_watcher : Errand

-- The variables of the loop and the served objects, with each presentation that was applied, the signals
-- that it made, and the errands, the first first.
pub record TrayState : Type 0 where
  pub daemon_state : Option DaemonState
  pub desktop : DesktopStatus
  pub credential : CredentialState
  pub served : Served
  pub shown : List (Presentation × List TraySignal)
  pub errands : List Errand

unfoldable pub show : TrayState → TrayState
unfolding apply_presentation present_with_desktop
show t =
    let p = present_with_desktop t.daemon_state t.credential t.desktop in
    let (signals, served) = apply_presentation p t.served in
    record t { served = served; shown = t.shown ++ (p, signals) ∷ [] }

-- `StateChanged` has only the four counters; the rest is inherited.
unfoldable pub inherit : Option DaemonState → DaemonState → DaemonState
inherit none state = state
inherit (some previous) state = record state {
  downloading = previous.downloading;
  indexing = previous.indexing;
  uploading = previous.uploading;
}

unfoldable pub with_state : (DaemonState → DaemonState) → Option DaemonState → TrayState → TrayState
unfolding show
with_state change none t = t
with_state change (some s) t = show (record t { daemon_state = some (change s) })

-- The loop goes on, or `run` returns: well, or with the error of a lost bus.
pub data Loop : Type 0 where
  going hidden lost : TrayState → Loop

unfoldable pub turn : TrayEvent → TrayState → Loop
unfolding show inherit with_state
turn (desktop_event value) t = going (show (record t { desktop = value }))
turn (state_event state) t =
    going (show (record t { daemon_state = some (inherit t.daemon_state state) }))
turn (download_event n) t = going (with_state (λ s. record s { downloading = n }) t.daemon_state t)
turn (indexing_event b) t = going (with_state (λ s. record s { indexing = b }) t.daemon_state t)
turn (uploads_event paths) t =
    going (with_state (λ s. record s { uploading = paths }) t.daemon_state t)
turn sign_in t = going (record t { errands = t.errands ++ begin_enrollment ∷ [] })
turn (credential_event state) t = going (show (record t { credential = state }))
turn service_gone t = going (show (record t { daemon_state = none; credential = unknown }))
turn (service_returned read) t = going (
    show (record t {
      desktop = read.read_desktop;
      daemon_state = read.read_state;
      credential = read.read_credential;
    }))
turn watcher_returned t = going (record t { errands = t.errands ++ register_with_watcher ∷ [] })
turn quit t = hidden t
turn bus_lost t = lost t

and_on : Loop → (TrayState → Loop) → Loop
and_on (going t) f = f t
and_on (hidden t) f = hidden t
and_on (lost t) f = lost t

unfoldable pub turns : List TrayEvent → TrayState → Loop
unfolding turn and_on
turns [] t = going t
turns (event ∷ events) t = and_on (turn event t) (turns events)

-- The objects as they are first served, and the tray after the first reading.
unfoldable pub served_first : Bool → Served
unfolding present
served_first has_mount = record {
  item = record { presentation = present none unknown; has_mount = has_mount };
  menu = record { presentation = present none unknown; has_mount = has_mount; revision = 1 };
}

unfoldable pub unshown_tray : Bool → ColdRead → TrayState
unfolding served_first
unshown_tray has_mount read = record {
  daemon_state = read.read_state;
  desktop = read.read_desktop;
  credential = read.read_credential;
  served = served_first has_mount;
  shown = [];
  errands = [];
}

unfoldable pub start_tray : Bool → ColdRead → TrayState
unfolding unshown_tray show
start_tray has_mount read = record (show (unshown_tray has_mount read)) {
  errands = register_with_watcher ∷ [];
}

module _ (json : Json) where
  -- What the threads make of a signal; they do not subscribe to the changes of the properties.
  unfoldable pub events_of : Signal → List TrayEvent
  unfolding parse_desktop from_wire
  events_of (state_changed running unsent excluded exposures) =
      state_event (record {
        daemon_running = running;
        unsent = unsent;
        excluded = excluded;
        exposures = exposures;
        downloading = 0;
        indexing = false;
        uploading = [];
      })
      ∷ []
  events_of (download_changed n) = download_event n ∷ []
  events_of (index_changed b) = indexing_event b ∷ []
  events_of (active_uploads_changed paths) = uploads_event paths ∷ []
  events_of (credential_changed word) = credential_event (from_wire word) ∷ []
  events_of (desktop_changed text) = desktop_event (parse_desktop json text) ∷ []
  events_of _ = []

  -- In the order in which the signals were sent. In the source each kind of signal has a thread of its
  -- own, so events of two kinds may come in another order; those of one kind may not.
  unfoldable pub all_events : List Signal → List TrayEvent
  unfolding events_of
  all_events [] = []
  all_events (signal ∷ signals) = events_of signal ++ all_events signals
