-- ===== src/Daemon/AuthState/Wire.antt =====
-- The words for the state of the credential.
use one_drive_hydration.Prelude.{◌≡◌, refl, ◌≢◌, sym, ap, ◌∙◌, ◌↔◌, Bool-cases, inl, inr}
use one_drive_hydration.Text.{Text, codes, text_eq, text_eq-eq}
use one_drive_hydration.Daemon.AuthState.{
  CredentialState, unknown, healthy, unsaved, rejected, as_wire, from_wire,
}

pub from_wire-as_wire : (s : CredentialState) → from_wire (as_wire s) ≡ s
unfolding from_wire as_wire text_eq
from_wire-as_wire unknown = refl
from_wire-as_wire healthy = refl
from_wire-as_wire unsaved = refl
from_wire-as_wire rejected = refl

as_wire-from_wire : (w : Text) → from_wire w ≢ unknown → as_wire (from_wire w) ≡ w
unfolding from_wire as_wire
as_wire-from_wire w known = elim (Bool-cases (text_eq w (codes "healthy"))) [
  | inl e ↦ rw e (sym (text_eq-eq w _ e))
  | inr a ↦ elim (Bool-cases (text_eq w (codes "unsaved"))) [
    | inl e ↦ rw (a, e) (sym (text_eq-eq w _ e))
    | inr b ↦ elim (Bool-cases (text_eq w (codes "rejected"))) [
      | inl e ↦ rw (a, b, e) (sym (text_eq-eq w _ e))
      | inr c ↦ absurd (known (rw (a, b, c) refl))
    ]
  ]
]

-- A word is read as a known state exactly when it is the word for that state.
pub from_wire_iff :
    (w : Text) (s : CredentialState) → s ≢ unknown → (from_wire w ≡ s) ↔ (w ≡ as_wire s)
from_wire_iff w s known = (
  λ e. sym (as_wire-from_wire w (λ u. known (sym e ∙ u))) ∙ ap as_wire e,
  λ e. ap from_wire e ∙ from_wire-as_wire s,
)
