-- ===== src/Daemon/Tray/Attention.antt =====
-- When the panel asks for attention, and when it offers to sign in.
use one_drive_hydration.Prelude.{
  ◌≡◌, refl, ◌↔◌, ap, true, false, Option, none, some, ltb, Bool-cases, ◌⊎◌, inl, inr, arith, ◌<◌,
}
use one_drive_hydration.Daemon.AuthState.{
  CredentialState, unknown, healthy, unsaved, rejected, state_eq,
}
use one_drive_hydration.Daemon.Bus.{DaemonState}
use one_drive_hydration.Daemon.Tray.{
  needs_attention, with_rows, without_rows, present_running, present,
}
use one_drive_hydration.Daemon.Tray.Desktop.{
  DesktopStatus, with_excluded, runs_unexposed, overlaid, present_with_desktop,
}

-- What a person must act on.
abbrev pub MustAct : Option DaemonState → CredentialState → DesktopStatus → Type 0
MustAct none credential desktop = ⊥
MustAct (some s) credential desktop =
    (s.daemon_running ≡ true)
    × ((0 < s.exposures)
        ⊎ (credential ≡ rejected)
        ⊎ ((0 < desktop.issues) × (desktop.resolving ≡ false)))

abbrev pub MaySignIn : Option DaemonState → CredentialState → Type 0
MaySignIn none credential = ⊥
MaySignIn (some s) credential = (s.daemon_running ≡ true) × (credential ≡ rejected)

state_eq-rejected : (c : CredentialState) → state_eq c rejected ≡ true → c ≡ rejected
unfolding state_eq
state_eq-rejected unknown h = cc
state_eq-rejected healthy h = cc
state_eq-rejected unsaved h = cc
state_eq-rejected rejected h = refl

status-MustAct :
    (s : DaemonState) (credential : CredentialState) (desktop : DesktopStatus)
    → (present_with_desktop (some s) credential desktop).sni_status ≡ needs_attention
    → MustAct (some s) credential desktop
unfolding present_with_desktop with_excluded runs_unexposed overlaid present present_running
    with_rows without_rows
status-MustAct s credential desktop h = (ground arith, reason)
  where
    reason :
        (0 < s.exposures)
        ⊎ (credential ≡ rejected)
        ⊎ ((0 < desktop.issues) × (desktop.resolving ≡ false))
    reason = elim (Bool-cases (ltb 0 s.exposures)) [
      | inl e ↦ inl (ground arith)
      | inr e ↦ elim (Bool-cases (state_eq credential rejected)) [
        | inl r ↦ inr (inl (state_eq-rejected credential r))
        | inr r ↦ inr (inr (ground arith, ground arith))
      ]
    ]

MustAct-status :
    (s : DaemonState) (credential : CredentialState) (desktop : DesktopStatus)
    → MustAct (some s) credential desktop
    → (present_with_desktop (some s) credential desktop).sni_status ≡ needs_attention
unfolding present_with_desktop with_excluded runs_unexposed overlaid present present_running
    with_rows without_rows
MustAct-status s credential desktop (running, inl h) = ground arith
MustAct-status s credential desktop (running, inr (inl h)) =
    ground (arith, ap (λ c. state_eq c rejected) h)
MustAct-status s credential desktop (running, inr (inr h)) = ground arith

unavailable :
    (credential : CredentialState) (desktop : DesktopStatus)
    → (present_with_desktop none credential desktop).sni_status ≡ needs_attention ↔ ⊥
unfolding present_with_desktop runs_unexposed with_excluded present without_rows
unavailable credential desktop = (λ h. status-absurd h, λ n. absurd n)
  where
    status-absurd : (present_with_desktop none credential desktop).sni_status ≡ needs_attention → ⊥
    status-absurd h = ground arith

-- The item asks for attention exactly if the daemon runs and either something exposes the sync root,
-- or the sign-in is rejected, or there are issues and no conflict is being resolved.
pub present_with_desktop-MustAct :
    (state : Option DaemonState) (credential : CredentialState) (desktop : DesktopStatus)
    → (present_with_desktop state credential desktop).sni_status ≡ needs_attention
      ↔ MustAct state credential desktop
present_with_desktop-MustAct none credential desktop = unavailable credential desktop
present_with_desktop-MustAct (some s) credential desktop =
    (status-MustAct s credential desktop, MustAct-status s credential desktop)

offered :
    (state : Option DaemonState) (credential : CredentialState) (desktop : DesktopStatus)
    → (present_with_desktop state credential desktop).offer_sign_in
      ≡ (present state credential).offer_sign_in
unfolding present_with_desktop with_excluded overlaid
offered state credential desktop = ground arith

present-MaySignIn :
    (state : Option DaemonState) (credential : CredentialState)
    → (present state credential).offer_sign_in ≡ true ↔ MaySignIn state credential
unfolding present present_running with_rows without_rows
present-MaySignIn none credential = (λ h. cc, λ n. absurd n)
present-MaySignIn (some s) credential = (
  λ h. (ground arith, state_eq-rejected credential (ground arith)),
  λ h. ground (arith, ap (λ c. state_eq c rejected) h.1),
)

-- A sign-in is offered exactly if the daemon runs and the sign-in is rejected.
pub present_with_desktop-MaySignIn :
    (state : Option DaemonState) (credential : CredentialState) (desktop : DesktopStatus)
    → (present_with_desktop state credential desktop).offer_sign_in ≡ true
      ↔ MaySignIn state credential
present_with_desktop-MaySignIn state credential desktop =
    rw (offered state credential desktop) (present-MaySignIn state credential)
