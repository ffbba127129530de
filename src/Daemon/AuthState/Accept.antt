-- ===== src/Daemon/AuthState/Accept.antt =====
-- `accept_loop` of crates/onedrive-daemon/src/auth_state.rs, and the interleavings with the loop.
use one_drive_hydration.Prelude.{
  ℕ, Bool, true, false, Option, none, some, List, [], ◌∷◌, ◌++◌, length, ltb, if◌then◌else◌,
  is_empty,
}
use one_drive_hydration.Text.{Text, codes, text_eq}
use one_drive_hydration.Text.Words.{trim}
use one_drive_hydration.Daemon.AuthState.{
  state, Reply, status_line, restarting, unknown_command, replied, enrollment_completed, Publisher,
  max_watchers, Turn, loop_turn,
}

pub data Verb : Type 0 where
  status watch enrollment_complete blank : Verb
  other : Text → Verb

unfoldable pub verb_of : Text → Verb
unfolding text_eq trim
verb_of l =
    let verb = trim l in
    if text_eq verb (codes "status")
    then status
    else if text_eq verb (codes "watch")
    then watch
    else if text_eq verb (codes "enrollment-complete")
    then enrollment_complete
    else if is_empty verb
    then blank
    else other verb

-- After a reply the connection is read on, unless the reply could not be written.
unfoldable pub reply : Bool → ℕ → Reply → Publisher → Publisher
reply true conn r p = record p { events = replied conn r ∷ p.events }
reply false conn r p = record p { serving = none }

-- The line with the current state is written, and the connection kept if it took it.
unfoldable pub welcome : Bool → ℕ → Publisher → Publisher
welcome true conn p = record p {
  watchers = p.watchers ++ record { conn = conn; told = state p.current } ∷ [];
  serving = none;
}
welcome false conn p = record p { serving = none }

-- Over the cap the connection is dropped without a line.
unfoldable pub join_watchers : Bool → ℕ → Publisher → Publisher
unfolding welcome
join_watchers sent conn p =
    if ltb (length p.watchers) max_watchers
    then welcome sent conn p
    else record p { serving = none }

unfoldable pub answer : Bool → ℕ → Verb → Publisher → Publisher
unfolding reply join_watchers
answer sent conn status p = reply sent conn (status_line p.current) p
answer sent conn watch p = join_watchers sent conn p
answer sent conn enrollment_complete p =
    reply sent conn restarting
      (record p { restart_requested = true; events = enrollment_completed ∷ p.events })
answer sent conn blank p = p
answer sent conn (other verb) p = reply sent conn (unknown_command verb) p

pub data Move : Type 0 where
  loop : Turn → Move
  connect : ℕ → Move
  read_line : Bool → Text → Move
  hang_up : Move

-- One connection is served at a time; a line is read from that one.
unfoldable pub accept : Move → Option ℕ → Publisher → Publisher
unfolding answer verb_of
accept (connect conn) none p = record p { serving = some conn }
accept (read_line sent l) (some conn) p = answer sent conn (verb_of l) p
accept hang_up (some conn) p = record p { serving = none }
accept _ _ p = p

unfoldable pub step : Move → Publisher → Publisher
unfolding loop_turn accept
step (loop t) p = loop_turn t p.phase p
step m p = accept m p.serving p

-- An interleaving of the two threads.
unfoldable pub run : List Move → Publisher → Publisher
unfolding step
run [] p = p
run (m ∷ moves) p = run moves (step m p)
