-- ===== src/Daemon/AuthState.antt =====
-- crates/onedrive-daemon/src/auth_state.rs: the state of the credential and the publisher of it. Two
-- threads share the publisher: the sample loop and the acceptor, which serves one connection at a
-- time. A move is one section of one thread that no lock lets the other enter; a list of moves is an
-- interleaving.
pub mod Accept
pub mod Keeps
pub mod Informed
pub mod Adoption
pub mod Restarts
pub mod Wire
use one_drive_hydration.Prelude.{
  bool_eq, ℕ, Bool, true, false, not, ◌&&◌, ◌||◌, Option, none, some, List, [], ◌∷◌, ◌++◌, length,
  ltb, ◌==◌, if◌then◌else◌, ErrorKind, not_found, permission_denied, connection_refused,
  not_connected, timed_out, invalid_input, invalid_data, unexpected_eof, other, unlisted, is_some,
  is_empty,
}
use one_drive_hydration.Text.{Text, codes, text_eq}
use one_drive_hydration.Text.Words.{trim}

pub data CredentialState : Type 0 where
  unknown healthy unsaved rejected : CredentialState

unfoldable pub as_wire : CredentialState → Text
as_wire unknown = codes "unknown"
as_wire healthy = codes "healthy"
as_wire unsaved = codes "unsaved"
as_wire rejected = codes "rejected"

unfoldable pub from_wire : Text → CredentialState
unfolding text_eq
from_wire value =
    if text_eq value (codes "healthy")
    then healthy
    else if text_eq value (codes "unsaved")
    then unsaved
    else if text_eq value (codes "rejected")
    then rejected
    else unknown

unfoldable pub state_eq : CredentialState → CredentialState → Bool
state_eq unknown unknown = true
state_eq healthy healthy = true
state_eq unsaved unsaved = true
state_eq rejected rejected = true
state_eq _ _ = false

pub record CredentialHealth : Type 0 where
  pub signed_in : Bool
  pub store_error : Option ErrorKind

-- `CredentialHealth::state`
unfoldable pub state : CredentialHealth → CredentialState
state h = if not h.signed_in then rejected else if is_some h.store_error then unsaved else healthy

kind_eq : ErrorKind → ErrorKind → Bool
kind_eq not_found not_found = true
kind_eq permission_denied permission_denied = true
kind_eq connection_refused connection_refused = true
kind_eq not_connected not_connected = true
kind_eq timed_out timed_out = true
kind_eq invalid_input invalid_input = true
kind_eq invalid_data invalid_data = true
kind_eq unexpected_eof unexpected_eof = true
kind_eq other other = true
kind_eq (unlisted n) (unlisted m) = n == m
kind_eq _ _ = false

store_error_eq : Option ErrorKind → Option ErrorKind → Bool
unfolding kind_eq
store_error_eq none none = true
store_error_eq (some a) (some b) = kind_eq a b
store_error_eq _ _ = false

unfoldable pub health_eq : CredentialHealth → CredentialHealth → Bool
unfolding store_error_eq
health_eq a b = bool_eq a.signed_in b.signed_in && store_error_eq a.store_error b.store_error

-- Size and time of change of the enrollment file.
abbrev pub Snapshot : Type 0
Snapshot = ℕ × ℕ

abbrev pub is_snapshot : Option Snapshot → Snapshot → Bool
is_snapshot none s = false
is_snapshot (some (size, time)) (size', time') = size == size' && time == time'

-- A connection that asked for `watch`, and the state in the line that it was sent last.
pub record Watcher : Type 0 where
  pub conn : ℕ
  pub told : CredentialState

-- Where the sample loop stands.
pub data Phase : Type 0 where
  sampling culling requests files : Phase
  broadcasting : CredentialState → Phase

pub data Reply : Type 0 where
  status_line : CredentialHealth → Reply
  restarting : Reply
  unknown_command : Text → Reply

pub data Event : Type 0 where
  replied : ℕ → Reply → Event
  enrollment_completed adopted_store : Event
  looked : CredentialState → Option Snapshot → Event
  adopted_file : Snapshot → Event
  announced_waiting : Event

-- The variables of `serve`, and what happened so far, the last event first.
pub record Publisher : Type 0 where
  pub health : CredentialHealth
  pub current : CredentialHealth
  pub watchers : List Watcher
  pub restart_requested : Bool
  pub pending : Option Snapshot
  pub adopted : Option Snapshot
  pub announced_waiting_enrollment : Bool
  pub phase : Phase
  pub serving : Option ℕ
  pub events : List Event

abbrev pub max_watchers : ℕ
max_watchers = 8

-- The state in which the acceptor is started, after a first sample.
abbrev pub start : CredentialHealth → Publisher
start h = record {
  health = h;
  current = h;
  watchers = [];
  restart_requested = false;
  pending = none;
  adopted = none;
  announced_waiting_enrollment = false;
  phase = sampling;
  serving = none;
  events = [];
}

-- `sampled != health` decides whether anything is new.
unfoldable pub sample_turn : CredentialHealth → Publisher → Publisher
unfolding health_eq state_eq state
sample_turn sampled p =
    if health_eq sampled p.health then record p { phase = culling } else record p {
      health = sampled;
      current = sampled;
      phase =
          if state_eq (state sampled) (state p.health)
          then culling
          else broadcasting (state sampled);
    }

-- `broadcast`: a watcher that cannot be written to is dropped.
unfoldable pub broadcast : (ℕ → Bool) → CredentialState → List Watcher → List Watcher
broadcast writable s [] = []
broadcast writable s (w ∷ watchers) =
    let rest = broadcast writable s watchers in
    if writable w.conn then record { conn = w.conn; told = s } ∷ rest else rest

unfoldable pub cull : (ℕ → Bool) → List Watcher → List Watcher
cull gone [] = []
cull gone (w ∷ watchers) = let rest = cull gone watchers in if gone w.conn then rest else w ∷ rest

-- `restart_requested.swap(false, ..)`, and `adopt`, which the tests let return.
unfoldable pub request_turn : Publisher → Publisher
request_turn p =
    if p.restart_requested
    then record p { restart_requested = false; phase = files; events = adopted_store ∷ p.events }
    else record p { phase = files }

unfoldable pub rejected_with_file : Snapshot → Publisher → Publisher
rejected_with_file snap p =
    if is_snapshot p.adopted snap
    then p
    else if is_snapshot p.pending snap
    then record p { adopted = some snap; events = adopted_file snap ∷ p.events }
    else record p { pending = some snap }

unfoldable pub file_waits : Publisher → Publisher
file_waits p = if p.announced_waiting_enrollment then record p { pending = none } else record p {
  pending = none;
  announced_waiting_enrollment = true;
  events = announced_waiting ∷ p.events;
}

unfoldable pub judge_file : CredentialState → Option Snapshot → Publisher → Publisher
unfolding rejected_with_file file_waits
judge_file rejected (some snap) p = rejected_with_file snap p
judge_file _ (some snap) p = file_waits p
judge_file _ none p = record p { pending = none; announced_waiting_enrollment = false }

-- The look at the enrollment file, if the options name one.
unfoldable pub file_turn : Option (Option Snapshot) → Publisher → Publisher
unfolding judge_file state
file_turn none p = record p { phase = sampling }
file_turn (some snapshot) p =
    judge_file (state p.health) snapshot
      (record p { phase = sampling; events = looked (state p.health) snapshot ∷ p.events })

-- What the loop meets on its way: the sample, the connections, and the enrollment file.
pub record Turn : Type 0 where
  pub sampled : CredentialHealth
  pub writable : ℕ → Bool
  pub gone : ℕ → Bool
  pub enrollment : Option (Option Snapshot)

unfoldable pub loop_turn : Turn → Phase → Publisher → Publisher
unfolding sample_turn broadcast cull request_turn file_turn
loop_turn t sampling p = sample_turn t.sampled p
loop_turn t (broadcasting s) p = record p {
  watchers = broadcast t.writable s p.watchers;
  phase = culling;
}
loop_turn t culling p = record p { watchers = cull t.gone p.watchers; phase = requests }
loop_turn t requests p = request_turn p
loop_turn t files p = file_turn t.enrollment p
