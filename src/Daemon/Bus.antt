-- ===== src/Daemon/Bus.antt =====
-- The state lines and replies of crates/onedrive-daemon/src/dbus.rs. `decode_path` of the crate
-- hydration-client, which is not in this repository, is an argument.
pub mod Keys
pub mod Fields
pub mod Published
pub mod Evict
use one_drive_hydration.Prelude.{
  bool_eq, ℕ, ◌^◌, ◌≡◌, refl, Bool, true, false, not, ◌&&◌, ◌||◌, Option, none, some, List, [], ◌∷◌,
  ◌++◌, map, min, ◌==◌, is_some, is_empty, if◌then◌else◌, Result, ok, err,
}
use one_drive_hydration.Text.{Text, codes, text_eq, strip_prefix, split_once, split}
use one_drive_hydration.Text.Words.{split_whitespace}
use one_drive_hydration.Text.Ends.{rsplit_once, strip_suffix}
use one_drive_hydration.Text.Number.{parse_unsigned}
use one_drive_hydration.Text.FilePath.{texts_eq}
use one_drive_hydration.Daemon.AuthState.{CredentialState, unknown, from_wire, state_eq}
use one_drive_hydration.Daemon.Watcher.{Watch, Connection, watch_start, watch_rounds}

abbrev pub u64 : ℕ
u64 = 2 ^ 64

pub record DaemonState : Type 0 where
  pub daemon_running : Bool
  pub unsent : ℕ
  pub excluded : ℕ
  pub exposures : ℕ
  pub downloading : ℕ
  pub indexing : Bool
  pub uploading : List Text

-- `DaemonState::default`
abbrev pub default_state : DaemonState
default_state = record {
  daemon_running = false;
  unsent = 0;
  excluded = 0;
  exposures = 0;
  downloading = 0;
  indexing = false;
  uploading = [];
}

-- The derived `PartialEq`.
unfoldable pub same_state : DaemonState → DaemonState → Bool
same_state a b =
    bool_eq a.daemon_running b.daemon_running
    && a.unsent == b.unsent
    && a.excluded == b.excluded
    && a.exposures == b.exposures
    && a.downloading == b.downloading
    && bool_eq a.indexing b.indexing
    && texts_eq a.uploading b.uploading

-- The keys that have a number.
pub data Key : Type 0 where
  unsent_key excluded_key exposures_key downloading_key scanning_key : Key

unfoldable pub key_of : Text → Option Key
unfolding text_eq
key_of key =
    if text_eq key (codes "unsent")
    then some unsent_key
    else if text_eq key (codes "excluded")
    then some excluded_key
    else if text_eq key (codes "exposures")
    then some exposures_key
    else if text_eq key (codes "downloading")
    then some downloading_key
    else if text_eq key (codes "scanning")
    then some scanning_key
    else none

unfoldable pub set_key : Key → ℕ → DaemonState → DaemonState
set_key unsent_key value s = record s { unsent = value }
set_key excluded_key value s = record s { excluded = value }
set_key exposures_key value s = record s { exposures = value }
set_key downloading_key value s = record s { downloading = value }
set_key scanning_key value s = record s { indexing = not (value == 0) }

with_value : Option Key → Option ℕ → Option (Key × ℕ)
with_value (some key) (some value) = some (key, value)
with_value _ _ = none

assignment_of : Option (Text × Text) → Option (Key × ℕ)
unfolding with_value key_of
assignment_of none = none
assignment_of (some (key, value)) = with_value (key_of key) (parse_unsigned u64 value)

-- What a token assigns: nothing without `=`, for an unknown key, or if the value is no `u64`.
unfoldable pub assignment : Text → Option (Key × ℕ)
unfolding assignment_of
assignment token = assignment_of (split_once (codes "=") token)

assign : Option (Key × ℕ) → DaemonState → DaemonState
unfolding set_key
assign none s = s
assign (some (key, value)) s = set_key key value s

-- The loop over the tokens, with whether one was recognized so far.
unfoldable pub apply_tokens : List Text → Bool × DaemonState → Bool × DaemonState
unfolding assign
apply_tokens [] r = r
apply_tokens (token ∷ tokens) (recognized, s) =
    apply_tokens tokens (recognized || is_some (assignment token), assign (assignment token) s)

abbrev pub halves : Text → Option (Text × Text) → Text × Option Text
halves line none = (line, none)
halves line (some (head, value)) = (head, some value)

abbrev pub stopped : DaemonState → DaemonState
stopped s = record s { daemon_running = false }

module _ (decode_path : Text → Text) where
  unfoldable pub paths_of : Text → List Text
  paths_of value = if is_empty value then [] else map decode_path (split 32 value)

  set_uploading : Option Text → Bool × DaemonState → Bool × DaemonState
  unfolding paths_of
  set_uploading none r = r
  set_uploading (some value) (recognized, s) = (true, record s { uploading = paths_of value })

  -- Whether the line carried a known key, and the state with the line folded in.
  unfoldable pub apply_state_line : Text → DaemonState → Bool × DaemonState
  unfolding apply_tokens set_uploading
  apply_state_line line s =
      let (head, uploading) = halves line (rsplit_once (codes " uploading=") line) in
      set_uploading uploading (apply_tokens (split_whitespace head) (false, s))

  running_if : Bool × DaemonState → Bool × DaemonState
  running_if (true, s) = (true, record s { daemon_running = true })
  running_if (false, s) = (false, s)

  -- What `watch_once` makes of a line.
  unfoldable pub read_state : Text → DaemonState → Bool × DaemonState
  unfolding running_if apply_state_line
  read_state line s = running_if (apply_state_line line s)

  -- `watch_daemon` over the connections that it gets.
  unfoldable pub watch_daemon : List Connection → Watch DaemonState
  unfolding read_state same_state
  watch_daemon connections =
      watch_rounds same_state read_state stopped connections (watch_start default_state)

found_in : Option (Text × Text) → Option CredentialState
unfolding from_wire text_eq
found_in none = none
found_in (some (key, value)) =
    if text_eq key (codes "credential") then some (from_wire value) else none

later_or : Option CredentialState → Option CredentialState → Option CredentialState
later_or found none = found
later_or found (some s) = some s

found_in_tokens : List Text → Option CredentialState → Option CredentialState
unfolding found_in later_or
found_in_tokens [] found = found
found_in_tokens (token ∷ tokens) found =
    found_in_tokens tokens (later_or found (found_in (split_once (codes "=") token)))

unfoldable pub apply_credential_line : Text → Option CredentialState
unfolding found_in_tokens
apply_credential_line line = found_in_tokens (split_whitespace line) none

credential_or : Option CredentialState → CredentialState → Bool × CredentialState
credential_or none s = (false, s)
credential_or (some found) s = (true, found)

unfoldable pub read_credential : Text → CredentialState → Bool × CredentialState
unfolding credential_or apply_credential_line
read_credential line s = credential_or (apply_credential_line line) s

-- `watch_credential`: a lost connection leaves `Unknown`.
unfoldable pub watch_credential : List Connection → Watch CredentialState
unfolding read_credential state_eq
watch_credential connections =
    watch_rounds state_eq read_credential (λ s. unknown) connections (watch_start unknown)

pub data EvictReply : Type 0 where
  reclaimed : ℕ → EvictReply
  kept failed : Text → EvictReply

number_of : Option Text → Option ℕ
number_of none = none
number_of (some n) = parse_unsigned u64 n

reclaimed_bytes : Option Text → Option ℕ
unfolding number_of
reclaimed_bytes none = none
reclaimed_bytes (some r) = number_of (strip_suffix (codes " bytes") r)

evict_reply : Text → Option ℕ → Option Text → Option Text → EvictReply
evict_reply reply (some n) reason error = reclaimed n
evict_reply reply none (some reason) error = kept reason
evict_reply reply none none (some error) = failed error
evict_reply reply none none none = failed (codes "unrecognized daemon reply: " ++ reply)

unfoldable pub parse_evict_reply : Text → EvictReply
unfolding reclaimed_bytes evict_reply
parse_evict_reply reply =
    evict_reply reply (reclaimed_bytes (strip_prefix (codes "reclaimed ") reply))
      (strip_prefix (codes "kept: ") reply) (strip_prefix (codes "error: ") reply)
