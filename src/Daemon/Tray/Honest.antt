-- ===== src/Daemon/Tray/Honest.antt =====
-- When the panel says that everything is well, and when it asks for attention.
use one_drive_hydration.Prelude.{
  ℕ, ◌≡◌, refl, ◌↔◌, ◌∙◌, sym, ap, Bool, true, false, not, ◌&&◌, ◌||◌, Option, none, some, List, [],
  ◌∷◌, ◌++◌, append_assoc, ltb, ◌==◌, is_empty, Bool-cases, inl, inr, arith, ◌≢◌,
}
use one_drive_hydration.Text.{Text, codes, text_eq, text_eq_iff}
use one_drive_hydration.Text.Number.{decimal, is_digit}
use one_drive_hydration.Text.Number.Digits.{AllDigits, decimal-AllDigits}
use one_drive_hydration.Daemon.AuthState.{
  CredentialState, unknown, healthy, unsaved, rejected, state_eq,
}
use one_drive_hydration.Daemon.Bus.{DaemonState}
use one_drive_hydration.Daemon.Tray.{
  icon_synced, Presentation, is_active, waiting_headline, count, activity, with_rows, without_rows,
  present_running, present,
}
use one_drive_hydration.Daemon.Tray.Desktop.{
  DesktopStatus, with_excluded, runs_unexposed, overlaid, present_with_desktop,
}

-- Nothing is under way and nothing waits.
abbrev pub IsIdle : DaemonState → Type 0
IsIdle s = (s.downloading ≡ 0) × (s.indexing ≡ false) × (s.uploading ≡ []) × (s.unsent ≡ 0)

abbrev pub IsQuiet : DesktopStatus → Type 0
IsQuiet d = (d.paused ≡ false) × (d.issues ≡ 0) × (d.resolving ≡ false)

abbrev pub AllIsWell : Option DaemonState → CredentialState → DesktopStatus → Type 0
AllIsWell none credential desktop = ⊥
AllIsWell (some s) credential desktop =
    (s.daemon_running ≡ true)
    × (s.exposures ≡ 0)
    × (credential ≢ rejected)
    × IsIdle s
    × IsQuiet desktop

with_excluded-icon :
    (desktop : DesktopStatus) (p : Presentation) → (with_excluded desktop p).icon ≡ p.icon
unfolding with_excluded
with_excluded-icon desktop p = ground arith

not_rejected : (c : CredentialState) → c ≢ rejected → state_eq c rejected ≡ false
unfolding state_eq
not_rejected unknown h = refl
not_rejected healthy h = refl
not_rejected unsaved h = refl
not_rejected rejected h = absurd (h refl)

is_rejected : (c : CredentialState) → state_eq c rejected ≡ false → c ≢ rejected
unfolding state_eq
is_rejected unknown h = λ e. cc
is_rejected healthy h = λ e. cc
is_rejected unsaved h = λ e. cc
is_rejected rejected h = cc

no_paths : (paths : List Text) → is_empty paths ≡ true → paths ≡ []
no_paths [] h = refl
no_paths (p ∷ paths) h = cc

-- The conditions as one test.
is_well : DaemonState → CredentialState → DesktopStatus → Bool
is_well s credential desktop =
    s.daemon_running
    && s.exposures == 0
    && not (state_eq credential rejected)
    && not (is_active s)
    && s.unsent == 0
    && not (desktop.paused || ltb 0 desktop.issues || desktop.resolving)

present-icon_synced :
    (s : DaemonState) (credential : CredentialState) (desktop : DesktopStatus)
    → (present_with_desktop (some s) credential desktop).icon ≡ icon_synced
    → is_well s credential desktop ≡ true
unfolding present_with_desktop with_excluded runs_unexposed overlaid present present_running
    with_rows is_well without_rows
present-icon_synced s credential desktop h = ground arith

is_well-icon :
    (s : DaemonState) (credential : CredentialState) (desktop : DesktopStatus)
    → is_well s credential desktop ≡ true
    → (present_with_desktop (some s) credential desktop).icon ≡ icon_synced
unfolding present_with_desktop with_excluded runs_unexposed overlaid present present_running
    with_rows is_well without_rows
is_well-icon s credential desktop h = ground arith

AllIsWell-is_well :
    (s : DaemonState) (credential : CredentialState) (desktop : DesktopStatus)
    → AllIsWell (some s) credential desktop
    → is_well s credential desktop ≡ true
unfolding is_well
AllIsWell-is_well s credential desktop (running, unexposed, signed_in, (a, b, c, d), (e, f, g)) =
    ground (arith, not_rejected credential signed_in)

is_well-AllIsWell :
    (s : DaemonState) (credential : CredentialState) (desktop : DesktopStatus)
    → is_well s credential desktop ≡ true
    → AllIsWell (some s) credential desktop
unfolding is_well
is_well-AllIsWell s credential desktop h = (
  ground arith,
  ground arith,
  is_rejected credential (ground arith),
  (ground arith, ground arith, no_paths s.uploading (ground arith), ground arith),
  (ground arith, ground arith, ground arith),
)

number_first :
    (digits rest word : Text) → AllDigits digits → text_eq (digits ++ 32 ∷ rest) (85 ∷ word) ≡ false
unfolding text_eq is_digit
number_first [] rest word h = refl
number_first (c ∷ digits) rest word (digit, more) = ground arith

waiting_headline-other : (n : ℕ) → text_eq (waiting_headline n) (codes "Up to date") ≡ false
unfolding count
waiting_headline-other n =
    ap (λ t. text_eq t (codes "Up to date"))
      (append_assoc (decimal n) _ (codes " waiting to upload"))
    ∙ number_first (decimal n) _ _ (decimal-AllDigits n)

activity-other : (s : DaemonState) → text_eq (activity s).0 (codes "Up to date") ≡ false
unfolding activity text_eq
activity-other s = elim (Bool-cases (is_empty s.uploading)) [
  | inl e ↦ rw e (elim (Bool-cases (ltb 0 s.downloading)) [ inl d ↦ rw d refl | inr d ↦ rw d refl ])
  | inr e ↦ rw e (elim (Bool-cases (ltb 0 s.downloading)) [ inl d ↦ rw d refl | inr d ↦ rw d refl ])
]

says_up_to_date : Presentation → Bool
unfolding text_eq
says_up_to_date p = text_eq p.headline (codes "Up to date")

-- Without regard to the desktop.
is_settled : DaemonState → CredentialState → Bool
is_settled s credential =
    s.exposures == 0 && not (state_eq credential rejected) && not (is_active s) && s.unsent == 0

present_running-says :
    (s : DaemonState) (credential : CredentialState)
    → says_up_to_date (present_running s credential) ≡ is_settled s credential
unfolding present_running with_rows says_up_to_date is_settled
present_running-says s credential = elim (Bool-cases (ltb 0 s.exposures)) [
  | inl e ↦ rw e (ground arith)
  | inr e ↦ rw e (elim (Bool-cases (state_eq credential rejected)) [
    | inl r ↦ rw r (ground arith)
    | inr r ↦ rw r (elim (Bool-cases (is_active s)) [
      | inl a ↦ rw a (activity-other s ∙ ground arith)
      | inr a ↦ rw a (elim (Bool-cases (ltb 0 s.unsent)) [
        | inl u ↦ rw u (waiting_headline-other s.unsent ∙ ground arith)
        | inr u ↦ rw u (ground arith)
      ])
    ])
  ])
]

with_excluded-says :
    (desktop : DesktopStatus) (p : Presentation)
    → says_up_to_date (with_excluded desktop p) ≡ says_up_to_date p
unfolding with_excluded says_up_to_date
with_excluded-says desktop p =
    elim (Bool-cases (text_eq p.headline (codes "Up to date") && ltb 0 desktop.excluded_folders)) [
      | inl e ↦ rw e refl
      | inr e ↦ rw e refl
    ]

overlaid-says :
    (busy : Bool) (desktop : DesktopStatus) (p : Presentation)
    → says_up_to_date (overlaid busy desktop p) ≡ false
unfolding overlaid says_up_to_date
overlaid-says busy desktop p = elim (Bool-cases desktop.resolving) [
  | inl e ↦ rw e refl
  | inr e ↦ rw e (elim (Bool-cases (ltb 0 desktop.issues)) [
    | inl i ↦ rw i refl
    | inr i ↦ rw i (elim (Bool-cases busy) [ inl b ↦ rw b refl | inr b ↦ rw b refl ])
  ])
]

present-says :
    (s : DaemonState) (credential : CredentialState)
    → says_up_to_date (present (some s) credential) ≡ (s.daemon_running && is_settled s credential)
unfolding present without_rows says_up_to_date is_settled
present-says s credential = elim (Bool-cases s.daemon_running) [
  | inl e ↦ rw e (present_running-says s credential)
  | inr e ↦ rw e refl
]

present_with_desktop-says :
    (s : DaemonState) (credential : CredentialState) (desktop : DesktopStatus)
    → says_up_to_date (present_with_desktop (some s) credential desktop)
      ≡ is_well s credential desktop
unfolding present_with_desktop runs_unexposed is_well is_settled
present_with_desktop-says s credential desktop =
    elim (Bool-cases (
      (desktop.paused || ltb 0 desktop.issues || desktop.resolving)
      && (s.daemon_running && s.exposures == 0)
      && not (state_eq credential rejected))) [
        | inl e ↦ rw e (
            overlaid-says (is_active s) desktop
              (with_excluded desktop (present (some s) credential))
            ∙ ground arith)
        | inr e ↦ rw e (
            with_excluded-says desktop (present (some s) credential)
            ∙ present-says s credential
            ∙ ground arith)
      ]

unavailable :
    (credential : CredentialState) (desktop : DesktopStatus)
    → ((present_with_desktop none credential desktop).headline ≡ codes "Up to date" ↔ ⊥)
      × ((present_with_desktop none credential desktop).icon ≡ icon_synced ↔ ⊥)
unfolding present_with_desktop runs_unexposed with_excluded present without_rows text_eq
unavailable credential desktop =
    elim (Bool-cases (desktop.paused || ltb 0 desktop.issues || desktop.resolving)) [
      | inl e ↦ rw e ((λ h. cc, λ n. absurd n), (λ h. cc, λ n. absurd n))
      | inr e ↦ rw e ((λ h. cc, λ n. absurd n), (λ h. cc, λ n. absurd n))
    ]

-- The panel says `Up to date` exactly if the daemon runs, nothing exposes the sync root, the sign-in is
-- not rejected, there is no download, upload, cloud check or change that waits, and the desktop reports
-- no pause, no issue and no conflict that is being resolved. It shows the icon for that in the same cases.
pub present_with_desktop-AllIsWell :
    (state : Option DaemonState) (credential : CredentialState) (desktop : DesktopStatus)
    → ((present_with_desktop state credential desktop).headline ≡ codes "Up to date"
        ↔ AllIsWell state credential desktop)
      × ((present_with_desktop state credential desktop).icon ≡ icon_synced
          ↔ AllIsWell state credential desktop)
unfolding says_up_to_date
present_with_desktop-AllIsWell none credential desktop = unavailable credential desktop
present_with_desktop-AllIsWell (some s) credential desktop = (
  (
    λ e.
        is_well-AllIsWell s credential desktop
          (sym (present_with_desktop-says s credential desktop) ∙ (text_eq_iff _ _).1 e),
    λ well. (text_eq_iff _ _).0 (
        present_with_desktop-says s credential desktop
        ∙ AllIsWell-is_well s credential desktop well),
  ),
  (
    λ e. is_well-AllIsWell s credential desktop (present-icon_synced s credential desktop e),
    λ well. is_well-icon s credential desktop (AllIsWell-is_well s credential desktop well),
  ),
)
