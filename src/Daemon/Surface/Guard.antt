-- ===== src/Daemon/Surface/Guard.antt =====
-- Who makes the daemon do something over the bus, and what can be said to it that way.
use one_drive_hydration.Prelude.{
  ℕ, ◌≡◌, refl, Bool, true, false, not, ◌||◌, Option, none, some, List, [], ◌∷◌, ◌++◌, any,
  is_empty, if◌then◌else◌, All, ◌≢◌, Result, ErrorKind, ltb, Bool-cases, ==_iff, ap, ◌⊎◌, inl, inr,
  arith,
}
use one_drive_hydration.Text.{Text, codes}
use one_drive_hydration.Text.Words.{trim}
use one_drive_hydration.Text.Number.{decimal}
use one_drive_hydration.Daemon.Control.{Socket, is_forbidden_char, control_request}
use one_drive_hydration.Daemon.Jobs.Paths.{PathParts}
use one_drive_hydration.Daemon.Surface.{
  no_sender, bus_unreachable, unidentified, no_uid, has_uid, Caller, caller_permitted, Method,
  review_conflict, resolve_conflict, set_folder_selection, list_cloud_folders, pause, retry_pending,
  evict, start_availability_job, cancel_availability_job, open_setup_wizard, begin_enrollment,
  enrollment_status, Around, Answer, is_token, is_choice, denied, refuse_call, permitted_call, call,
}

-- One command: no newline, no carriage return and no NUL but the newline at its end.
abbrev pub IsCommand : Text → Type 0
IsCommand t =
    (command : Text) × (t ≡ command ++ 10 ∷ []) × All (λ c. (c ≢ 10) × (c ≢ 13) × (c ≢ 0)) command

clean_command :
    (command : Text)
    → any is_forbidden_char command ≡ false
    → All (λ c. (c ≢ 10) × (c ≢ 13) × (c ≢ 0)) command
unfolding is_forbidden_char
clean_command [] h = tt
clean_command (c ∷ command) h = (
  (λ e. ground arith, λ e. ground arith, λ e. ground arith),
  clean_command command (ground arith),
)

abbrev pub OneCommand : List Text → Type 0
OneCommand [] = Unit
OneCommand (t ∷ []) = IsCommand t
OneCommand (t ∷ u ∷ more) = ◌≡◌ {A = Bool} true false

control_request-OneCommand :
    (socket : Socket) (command : Text) → OneCommand (control_request socket command).sent
unfolding control_request
control_request-OneCommand socket command =
    elim (Bool-cases (is_empty command || any is_forbidden_char command)) [
      | inl e ↦ rw e tt
      | inr e ↦ rw e (command, refl, clean_command command (ground arith))
    ]

either_sent :
    (b : Bool) (x y : Answer)
    → OneCommand x.sent
    → OneCommand y.sent
    → OneCommand (if b then x else y).sent
either_sent true x y f g = f
either_sent false x y f g = g

-- Any caller, if no uid is required, and else a caller with that uid.
abbrev pub IsOwner : Option ℕ → Caller → Type 0
IsOwner none caller = Unit
IsOwner (some required) caller = caller ≡ has_uid required

caller_permitted-IsOwner :
    (require_uid : Option ℕ) (caller : Caller)
    → caller_permitted require_uid caller ≡ true
    → IsOwner require_uid caller
unfolding caller_permitted
caller_permitted-IsOwner none caller h = tt
caller_permitted-IsOwner (some required) no_sender h = cc
caller_permitted-IsOwner (some required) bus_unreachable h = cc
caller_permitted-IsOwner (some required) unidentified h = cc
caller_permitted-IsOwner (some required) no_uid h = cc
caller_permitted-IsOwner (some required) (has_uid uid) h = ap has_uid ((==_iff uid required).0 h)

module _ (canonicalize : Text → Result ErrorKind PathParts) (to_json : List Text → Text)
    (from_json : Text → Option (List Text)) where
  permitted_call-OneCommand :
      (around : Around) (method : Method)
      → OneCommand (permitted_call canonicalize to_json from_json around method).sent
  unfolding permitted_call
  permitted_call-OneCommand around (review_conflict path) =
      control_request-OneCommand around.socket (codes "review " ++ path)
  permitted_call-OneCommand around (resolve_conflict token choice) =
      either_sent around.jobs.state.running _ _ tt (
        either_sent (not (is_token token) || not (is_choice choice)) _ _ tt
          (control_request-OneCommand around.socket (codes "resolve " ++ (token ++ 32 ∷ choice))))
  permitted_call-OneCommand around (set_folder_selection paths) =
      either_sent around.jobs.state.running _ _ tt
        (control_request-OneCommand around.socket (codes "selection " ++ to_json paths))
  permitted_call-OneCommand around (list_cloud_folders path) =
      control_request-OneCommand around.socket (codes "list_cloud " ++ trim path)
  permitted_call-OneCommand around (pause seconds) =
      either_sent (ltb 86400 seconds) _ _ tt
        (control_request-OneCommand around.socket (codes "pause " ++ decimal seconds))
  permitted_call-OneCommand around retry_pending =
      control_request-OneCommand around.socket (codes "retry")
  permitted_call-OneCommand around (evict path) =
      either_sent (is_empty path || any is_forbidden_char path) _ _ tt
        (control_request-OneCommand around.socket (codes "evict " ++ path))
  permitted_call-OneCommand around (start_availability_job operation paths) = tt
  permitted_call-OneCommand around cancel_availability_job = tt
  permitted_call-OneCommand around open_setup_wizard = tt
  permitted_call-OneCommand around begin_enrollment = tt
  permitted_call-OneCommand around enrollment_status = tt

  -- Whatever method of the interface a caller asks for, the call itself writes at most one text to the
  -- daemon, and it is one command: no character of it but the newline behind it is a newline, a
  -- carriage return or a NUL. A caller whom the bus driver does not attribute to the required uid gets
  -- `Denied`, and nothing is written. What a job or a sign-in that a call starts writes later from
  -- its own thread is not counted here.
  pub call-OneCommand :
      (require_uid : Option ℕ) (caller : Caller) (around : Around) (method : Method)
      → OneCommand (call canonicalize to_json from_json require_uid caller around method).sent
        × (IsOwner require_uid caller
            ⊎ (call canonicalize to_json from_json require_uid caller around method
                ≡ refuse_call (denied caller)))
  unfolding call
  call-OneCommand require_uid caller around method =
      elim (Bool-cases (caller_permitted require_uid caller)) [
        | inl e ↦ rw e (
          permitted_call-OneCommand around method,
          inl (caller_permitted-IsOwner require_uid caller e),
        )
        | inr e ↦ rw e (tt, inr refl)
      ]
