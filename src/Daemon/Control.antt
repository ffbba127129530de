-- ===== src/Daemon/Control.antt =====
-- `control_request` of crates/onedrive-daemon/src/lib.rs. The socket is a function from what is
-- written to what is read back until the daemon closes the connection.
use one_drive_hydration.Prelude.{
  ℕ, Bool, ◌||◌, List, [], ◌∷◌, ◌++◌, any, is_empty, ◌==◌, if◌then◌else◌, Result, ok, err,
  ErrorKind, invalid_input, unexpected_eof,
}
use one_drive_hydration.Text.{Text}
use one_drive_hydration.Text.Ends.{trim_end_matches}

abbrev pub Socket : Type 0
Socket = Text → Result ErrorKind Text

-- `'\n' | '\r' | '\0'`
unfoldable pub is_forbidden_char : ℕ → Bool
is_forbidden_char c = c == 10 || c == 13 || c == 0

abbrev pub is_line_end : ℕ → Bool
is_line_end c = c == 10 || c == 13

-- What was written, and the answer.
pub record Exchange {ℓ κ} (E : Type ℓ) (A : Type κ) : Type (ℓ ⊔ κ) where
  pub sent : List Text
  pub result : Result E A

unfoldable pub received : Result ErrorKind Text → Result ErrorKind Text
received (err e) = err e
received (ok []) = err unexpected_eof
received (ok (c ∷ reply)) = ok (trim_end_matches is_line_end (c ∷ reply))

unfoldable pub control_request : Socket → Text → Exchange ErrorKind Text
unfolding is_forbidden_char received
control_request socket command =
    if is_empty command || any is_forbidden_char command
    then record { sent = []; result = err invalid_input }
    else record {
      sent = (command ++ 10 ∷ []) ∷ [];
      result = received (socket (command ++ 10 ∷ []));
    }
