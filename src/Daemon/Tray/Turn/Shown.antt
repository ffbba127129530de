-- ===== src/Daemon/Tray/Turn/Shown.antt =====
-- What the tray shows is what it knows.
use one_drive_hydration.Prelude.{◌≡◌, refl, ◌∙◌, ap, Bool, Option, none, some, List, [], ◌∷◌, ◌++◌}
use one_drive_hydration.Daemon.AuthState.{unknown}
use one_drive_hydration.Daemon.Bus.{DaemonState}
use one_drive_hydration.Daemon.Tray.{Presentation}
use one_drive_hydration.Daemon.Tray.Desktop.{present_with_desktop}
use one_drive_hydration.Daemon.Tray.Show.{TraySignal, apply_presentation}
use one_drive_hydration.Daemon.Tray.Show.Host.{View, view_of, hear_all}
use one_drive_hydration.Daemon.Tray.Show.Told.{seen, apply_presentation-seen}
use one_drive_hydration.Daemon.Tray.Turn.{
  ColdRead, TrayEvent, desktop_event, state_event, credential_event, download_event, indexing_event,
  uploads_event, sign_in, service_gone, watcher_returned, quit, bus_lost, service_returned,
  TrayState, show, inherit, with_state, Loop, going, hidden, lost, turn, turns, and_on,
  served_first, unshown_tray, start_tray,
}

-- A host that follows from the objects as they are first served.
unfoldable pub host_view : List (Presentation × List TraySignal) → View → View
host_view [] v = v
host_view ((p, signals) ∷ shows) v = host_view shows (hear_all p signals v)

-- The variables are what a host sees, whether a mount is served or not.
abbrev pub Shown : Bool → TrayState → Type 0
Shown has_mount t =
    (t.served.menu.has_mount ≡ has_mount)
    × (seen t.served
        ≡ view_of (present_with_desktop t.daemon_state t.credential t.desktop) has_mount)
    × (host_view t.shown (seen (served_first has_mount)) ≡ seen t.served)

abbrev pub LoopShown : Bool → Loop → Type 0
LoopShown has_mount (going t) = Shown has_mount t
LoopShown has_mount (hidden t) = Shown has_mount t
LoopShown has_mount (lost t) = Shown has_mount t

host_view-append :
    (shows : List (Presentation × List TraySignal)) (p : Presentation) (signals : List TraySignal)
    (v : View)
    → host_view (shows ++ (p, signals) ∷ []) v ≡ hear_all p signals (host_view shows v)
unfolding host_view
host_view-append [] p signals v = refl
host_view-append ((q, more) ∷ shows) p signals v =
    host_view-append shows p signals (hear_all q more v)

-- Showing needs only what was true of the last presentation.
abbrev Followed : Bool → TrayState → Type 0
Followed has_mount t =
    (t.served.menu.has_mount ≡ has_mount)
    × (host_view t.shown (seen (served_first has_mount)) ≡ seen t.served)

show-Shown : (has_mount : Bool) (t : TrayState) → Followed has_mount t → Shown has_mount (show t)
unfolding show apply_presentation
show-Shown has_mount t (mount, followed) =
    let p = present_with_desktop t.daemon_state t.credential t.desktop in
    (
      mount,
      ap (view_of p) mount,
      host_view-append t.shown p (apply_presentation p t.served).0 (seen (served_first has_mount))
          ∙ ap (hear_all p (apply_presentation p t.served).0) followed
          ∙ apply_presentation-seen p t.served,
    )

with_state-Shown :
    (has_mount : Bool) (change : DaemonState → DaemonState) (state : Option DaemonState)
    (t : TrayState)
    → Shown has_mount t
    → Shown has_mount (with_state change state t)
unfolding with_state
with_state-Shown has_mount change none t h = h
with_state-Shown has_mount change (some s) t (mount, now, followed) =
    show-Shown has_mount (record t { daemon_state = some (change s) }) (mount, followed)

turn-Shown :
    (has_mount : Bool) (event : TrayEvent) (t : TrayState)
    → Shown has_mount t
    → LoopShown has_mount (turn event t)
unfolding turn
turn-Shown has_mount (desktop_event value) t (mount, now, followed) =
    show-Shown has_mount (record t { desktop = value }) (mount, followed)
turn-Shown has_mount (state_event state) t (mount, now, followed) =
    show-Shown has_mount (record t { daemon_state = some (inherit t.daemon_state state) })
      (mount, followed)
turn-Shown has_mount (download_event n) t h =
    with_state-Shown has_mount (λ s. record s { downloading = n }) t.daemon_state t h
turn-Shown has_mount (indexing_event b) t h =
    with_state-Shown has_mount (λ s. record s { indexing = b }) t.daemon_state t h
turn-Shown has_mount (uploads_event paths) t h =
    with_state-Shown has_mount (λ s. record s { uploading = paths }) t.daemon_state t h
turn-Shown has_mount sign_in t h = h
turn-Shown has_mount (credential_event state) t (mount, now, followed) =
    show-Shown has_mount (record t { credential = state }) (mount, followed)
turn-Shown has_mount service_gone t (mount, now, followed) =
    show-Shown has_mount (record t { daemon_state = none; credential = unknown }) (mount, followed)
turn-Shown has_mount (service_returned read) t (mount, now, followed) =
    show-Shown has_mount
      (record t {
        desktop = read.read_desktop;
        daemon_state = read.read_state;
        credential = read.read_credential;
      })
      (mount, followed)
turn-Shown has_mount watcher_returned t h = h
turn-Shown has_mount quit t h = h
turn-Shown has_mount bus_lost t h = h

and_on-Shown :
    (has_mount : Bool) (loop : Loop) (f : TrayState → Loop)
    → LoopShown has_mount loop
    → ((t : TrayState) → Shown has_mount t → LoopShown has_mount (f t))
    → LoopShown has_mount (and_on loop f)
unfolding and_on
and_on-Shown has_mount (going t) f h step = step t h
and_on-Shown has_mount (hidden t) f h step = h
and_on-Shown has_mount (lost t) f h step = h

turns-Shown :
    (has_mount : Bool) (events : List TrayEvent) (t : TrayState)
    → Shown has_mount t
    → LoopShown has_mount (turns events t)
unfolding turns
turns-Shown has_mount [] t h = h
turns-Shown has_mount (event ∷ events) t h =
    and_on-Shown has_mount (turn event t) (turns events) (turn-Shown has_mount event t h)
      (turns-Shown has_mount events)

start_tray-Shown :
    (has_mount : Bool) (read : ColdRead) → Shown has_mount (start_tray has_mount read)
unfolding start_tray unshown_tray served_first host_view
start_tray-Shown has_mount read = show-Shown has_mount (unshown_tray has_mount read) (refl, refl)

-- After any events a host that followed all signals from the first serving on shows exactly the
-- presentation of the state, the credential state and the desktop that the tray knows, with the items
-- of its menu; also when the loop was left.
pub turns-start_tray :
    (has_mount : Bool) (read : ColdRead) (events : List TrayEvent)
    → LoopShown has_mount (turns events (start_tray has_mount read))
turns-start_tray has_mount read events =
    turns-Shown has_mount events (start_tray has_mount read) (start_tray-Shown has_mount read)
