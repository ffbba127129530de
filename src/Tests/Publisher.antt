-- ===== src/Tests/Publisher.antt =====
-- The publisher of the sign-in state: a watcher joins between a change and its broadcast, a file is
-- adopted at the second look, and a restart is asked for.
use one_drive_hydration.Prelude.{◌≡◌, ◌↔◌, ◌≤◌, true, false, none, some, List, [], ◌∷◌}
use one_drive_hydration.Text.{codes}
use one_drive_hydration.Daemon.AuthState.{
  CredentialHealth, healthy, as_wire, from_wire, start, Turn,
}
use one_drive_hydration.Daemon.AuthState.Accept.{Move, loop, connect, read_line, run}
use one_drive_hydration.Daemon.AuthState.Informed.{Consistent, run-Consistent}
use one_drive_hydration.Daemon.AuthState.Adoption.{Settled, run-Settled}
use one_drive_hydration.Daemon.AuthState.Restarts.{restarts, requested, restarts_bounded}
use one_drive_hydration.Daemon.AuthState.Wire.{from_wire_iff}

abbrev fine : CredentialHealth
fine = record { signed_in = true; store_error = none }

abbrev refused_health : CredentialHealth
refused_health = record { signed_in = false; store_error = none }

abbrev one_turn : Turn
one_turn = record {
  sampled = refused_health;
  writable = λ c. true;
  gone = λ c. false;
  enrollment = some (some (100, 7));
}

-- Two rounds of the loop, in the first of which a watcher joins and a restart is asked for.
abbrev moves : List Move
moves =
    loop one_turn
    ∷ connect 3
    ∷ read_line true (codes "watch")
    ∷ connect 4
    ∷ read_line true (codes "enrollment-complete")
    ∷ loop one_turn
    ∷ loop one_turn
    ∷ loop one_turn
    ∷ loop one_turn
    ∷ loop one_turn
    ∷ loop one_turn
    ∷ loop one_turn
    ∷ loop one_turn
    ∷ []

run-Consistent_example : Consistent (run moves (start fine))
run-Consistent_example = run-Consistent fine moves

run-Settled_example : Settled (run moves (start fine)).events
run-Settled_example = run-Settled fine moves

restarts_bounded_example :
    restarts (run moves (start fine)).events ≤ requested (run moves (start fine)).events
restarts_bounded_example = restarts_bounded fine moves

from_wire_iff_example :
    (from_wire (codes "healthy") ≡ healthy) ↔ (codes "healthy" ≡ as_wire healthy)
from_wire_iff_example = from_wire_iff (codes "healthy") healthy (λ e. cc)
