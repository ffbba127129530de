-- ===== src/Daemon/Tray/Turn/Service.antt =====
-- The state service and the tray together: what the service signals, the tray knows.
use one_drive_hydration.Prelude.{
  ℕ, ◌≡◌, refl, ◌∙◌, ap, sym, Bool, false, Option, some, List, [], ◌∷◌, ◌++◌, Bool-cases, inl, inr,
  fun_ext,
}
use one_drive_hydration.Daemon.AuthState.{CredentialState, state_eq}
use one_drive_hydration.Daemon.AuthState.Wire.{from_wire-as_wire}
use one_drive_hydration.Daemon.Bus.{DaemonState}
use one_drive_hydration.Daemon.Surface.Signals.{
  Signal, daemon_running_changed, indexing_changed, index_changed, unsent_changed, excluded_changed,
  exposures_changed, downloading_changed, download_changed, uploading_changed,
  active_uploads_changed, state_changed, job_changed, credential_state_changed, credential_changed,
  desktop_state_changed, desktop_changed, publish_state, publish_credential,
}
use one_drive_hydration.Daemon.Surface.Signals.Mirror.{hear, follow, publish_state-followed}
use one_drive_hydration.Daemon.Tray.Desktop.{Json}
use one_drive_hydration.Daemon.Tray.Turn.{
  TrayEvent, TrayState, show, inherit, with_state, Loop, going, hidden, lost, turn, turns, and_on,
  events_of, all_events,
}

abbrev pub Knows : Option DaemonState → Loop → Type 0
Knows state (going t) = t.daemon_state ≡ state
Knows state _ = ⊥

Knows-moved : (a b : Option DaemonState) (loop : Loop) → a ≡ b → Knows a loop → Knows b loop
Knows-moved a b loop e h = rw⁻¹ e h

and_on-Knows :
    (state later : Option DaemonState) (loop : Loop) (f : TrayState → Loop)
    → Knows state loop
    → ((t : TrayState) → t.daemon_state ≡ state → Knows later (f t))
    → Knows later (and_on loop f)
unfolding and_on
and_on-Knows state later (going t) f h step = step t h
and_on-Knows state later (hidden t) f h step = absurd h
and_on-Knows state later (lost t) f h step = absurd h

and_on_assoc :
    (loop : Loop) (f g : TrayState → Loop)
    → and_on (and_on loop f) g ≡ and_on loop (λ t. and_on (f t) g)
unfolding and_on
and_on_assoc (going t) f g = refl
and_on_assoc (hidden t) f g = refl
and_on_assoc (lost t) f g = refl

turns-append :
    (a b : List TrayEvent) (t : TrayState) → turns (a ++ b) t ≡ and_on (turns a t) (turns b)
unfolding turns and_on
turns-append [] b t = refl
turns-append (event ∷ a) b t =
    ap (and_on (turn event t)) (fun_ext (turns-append a b))
    ∙ sym (and_on_assoc (turn event t) (turns a) (turns b))

with_state-knows :
    (change : DaemonState → DaemonState) (s : DaemonState) (t : TrayState)
    → t.daemon_state ≡ some s
    → (with_state change t.daemon_state t).daemon_state ≡ some (change s)
unfolding with_state show
with_state-knows change s t e = rw e refl

inherit-hear :
    (s : DaemonState) (running : Bool) (unsent excluded exposures : ℕ) (o : Option DaemonState)
    → o ≡ some s
    → inherit o (record {
      daemon_running = running;
      unsent = unsent;
      excluded = excluded;
      exposures = exposures;
      downloading = 0;
      indexing = false;
      uploading = [];
    })
      ≡ hear (state_changed running unsent excluded exposures) s
unfolding inherit hear
inherit-hear s running unsent excluded exposures o e = rw e refl

module _ (json : Json) where
  events_of-Knows :
      (signal : Signal) (s : DaemonState) (t : TrayState)
      → t.daemon_state ≡ some s
      → Knows (some (hear signal s)) (turns (events_of json signal) t)
  unfolding events_of turns turn and_on hear show
  events_of-Knows (state_changed running unsent excluded exposures) s t e =
      ap some (inherit-hear s running unsent excluded exposures t.daemon_state e)
  events_of-Knows (download_changed n) s t e = with_state-knows _ s t e
  events_of-Knows (index_changed b) s t e = with_state-knows _ s t e
  events_of-Knows (active_uploads_changed paths) s t e = with_state-knows _ s t e
  events_of-Knows (credential_changed word) s t e = e
  events_of-Knows (desktop_changed text) s t e = e
  events_of-Knows (daemon_running_changed b) s t e = e
  events_of-Knows (indexing_changed b) s t e = e
  events_of-Knows (unsent_changed n) s t e = e
  events_of-Knows (excluded_changed n) s t e = e
  events_of-Knows (exposures_changed n) s t e = e
  events_of-Knows (downloading_changed n) s t e = e
  events_of-Knows (uploading_changed paths) s t e = e
  events_of-Knows (credential_state_changed word) s t e = e
  events_of-Knows (job_changed text) s t e = e
  events_of-Knows (desktop_state_changed text) s t e = e

  all_events-Knows :
      (signals : List Signal) (s : DaemonState) (t : TrayState)
      → t.daemon_state ≡ some s
      → Knows (some (follow hear signals s)) (turns (all_events json signals) t)
  unfolding all_events follow turns
  all_events-Knows [] s t e = e
  all_events-Knows (signal ∷ signals) s t e =
      rw (turns-append (events_of json signal) (all_events json signals) t) (
        and_on-Knows (some (hear signal s)) _ (turns (events_of json signal) t)
          (turns (all_events json signals)) (events_of-Knows signal s t e)
          (all_events-Knows signals (hear signal s)))

  -- If the tray knows the state that the service had, then after the signals that the service sends for
  -- a new state the loop goes on and the tray knows that new state.
  pub publish_state-Knows :
      (previous state : DaemonState) (t : TrayState)
      → t.daemon_state ≡ some previous
      → Knows (some state) (turns (all_events json (publish_state previous state)) t)
  publish_state-Knows previous state t e =
      Knows-moved _ (some state) _ (ap some (publish_state-followed previous state).1)
        (all_events-Knows (publish_state previous state) previous t e)

  -- After the signals that the service sends for a credential state the tray shows that state, whatever
  -- it knew before, and the loop goes on.
  pub publish_credential-turns :
      (previous credential : CredentialState) (t : TrayState)
      → turns (all_events json (publish_credential previous credential)) t
        ≡ going (show (record t { credential = credential }))
  unfolding publish_credential all_events events_of turns turn and_on
  publish_credential-turns previous credential t =
      elim (Bool-cases (state_eq previous credential)) [
        | inl e ↦
            rw e
              (ap (λ c. going (show (record t { credential = c }))) (from_wire-as_wire credential))
        | inr e ↦
            rw e
              (ap (λ c. going (show (record t { credential = c }))) (from_wire-as_wire credential))
      ]
