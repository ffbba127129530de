-- ===== src/Tests/Bus.antt =====
-- The D-Bus service: two connections to the daemon, a state line, an eviction, and a stranger's call.
use one_drive_hydration.Prelude.{
  ◌≡◌, refl, ◌⊎◌, true, false, Option, none, some, List, [], ◌∷◌, ◌++◌, ok, err, Result, ErrorKind,
  other, any, arith,
}
use one_drive_hydration.Text.{Text, codes}
use one_drive_hydration.Text.Ends.{rsplit_once}
use one_drive_hydration.Text.Number.{decimal}
use one_drive_hydration.Daemon.AuthState.{unknown}
use one_drive_hydration.Daemon.Watcher.{Connection}
use one_drive_hydration.Daemon.Watcher.Distinct.{distinct, history}
use one_drive_hydration.Daemon.Watcher.Backoff.{sleeps, outcomes}
use one_drive_hydration.Daemon.Bus.{
  DaemonState, default_state, same_state, read_state, stopped, watch_daemon, watch_credential,
  apply_state_line, reclaimed, parse_evict_reply,
}
use one_drive_hydration.Daemon.Bus.Fields.{described, apply_state_line-described}
use one_drive_hydration.Daemon.Bus.Evict.{evict_text, parse_evict_reply-evict_text}
use one_drive_hydration.Daemon.Bus.Published.{
  watch_daemon-distinct, watch_daemon-stopped, watch_daemon-sleeps, watch_credential-unknown,
}
use one_drive_hydration.Daemon.Control.{Socket, is_forbidden_char}
use one_drive_hydration.Daemon.Jobs.{keep, new_job}
use one_drive_hydration.Daemon.Jobs.Paths.{PathParts}
use one_drive_hydration.Daemon.Surface.{
  Around, caller_permitted, no_sender, has_uid, evict, refuse_call, denied, call,
}
use one_drive_hydration.Daemon.Surface.Guard.{IsOwner, OneCommand, call-OneCommand}
use one_drive_hydration.Daemon.Surface.Evicts.{promised, call-evict}
use one_drive_hydration.Daemon.Surface.Signals.{publish_state}
use one_drive_hydration.Daemon.Surface.Signals.Mirror.{
  set_property, hear, follow, publish_state-followed,
}

-- A `decode_path` that leaves a path as it is.
abbrev plain : Text → Text
plain path = path

abbrev a_line : Text
a_line = codes "unsent=3 scanning=1 uploading=a b"

-- The daemon speaks, cannot be reached, speaks again.
abbrev connections : List Connection
connections = some (a_line ∷ codes "unsent=0" ∷ []) ∷ none ∷ some (codes "excluded=7" ∷ []) ∷ []

abbrev speaking : Connection
speaking = some (codes "credential=healthy" ∷ [])

watch_daemon-distinct_example :
    (watch_daemon plain connections).published
    ≡ distinct same_state default_state
        (history (read_state plain) stopped connections default_state)
watch_daemon-distinct_example = watch_daemon-distinct plain connections

watch_daemon-stopped_example :
    (watch_daemon plain (connections ++ some (a_line ∷ []) ∷ [])).last_published.daemon_running
    ≡ false
watch_daemon-stopped_example = watch_daemon-stopped plain connections (some (a_line ∷ []))

watch_daemon-sleeps_example :
    (watch_daemon plain connections).slept
    ≡ sleeps (outcomes same_state (read_state plain) stopped connections default_state) 0
watch_daemon-sleeps_example = watch_daemon-sleeps plain connections

watch_credential-unknown_example :
    (watch_credential (none ∷ speaking ∷ [])).last_published ≡ unknown
watch_credential-unknown_example = watch_credential-unknown (none ∷ []) speaking

apply_state_line-described_example :
    apply_state_line plain a_line default_state
    ≡ described plain a_line (rsplit_once (codes " uploading=") a_line) default_state
apply_state_line-described_example = apply_state_line-described plain a_line default_state

parse_evict_reply-evict_text_example :
    parse_evict_reply (evict_text (reclaimed 4096)) ≡ reclaimed 4096
parse_evict_reply-evict_text_example = parse_evict_reply-evict_text (reclaimed 4096) (omega arith)

abbrev no_json : Text → Option (List Text)
no_json reply = none

abbrev joined : List Text → Text
joined paths = codes "[]"

-- A daemon that reclaims 4096 bytes whatever it is asked.
abbrev willing : Socket
willing command = ok (evict_text (reclaimed 4096) ++ 10 ∷ [])

abbrev found : Text → Result ErrorKind PathParts
found path = ok (path ∷ [])

abbrev around : Around
around = record {
  jobs = record { state = record (new_job 6 keep) { running = false }; cancel = false };
  socket = willing;
  daemon_running = true;
  desktop = none;
  issues = [];
  client_id = none;
  busy = false;
  prepared = err other;
  status = none;
}

reply_ends : evict_text (reclaimed 4096) ≡ codes "reclaimed 4096 byte" ++ 115 ∷ []
unfolding evict_text decimal
reply_ends = refl

clean : any is_forbidden_char (47 ∷ codes "home/a") ≡ false
unfolding is_forbidden_char
clean = refl

mine : caller_permitted (some 1000) (has_uid 1000) ≡ true
unfolding caller_permitted
mine = refl

call-evict_example :
    call found joined no_json (some 1000) (has_uid 1000) around (evict (47 ∷ codes "home/a"))
    ≡ record {
      sent = (codes "evict " ++ (47 ∷ codes "home/a") ++ 10 ∷ []) ∷ [];
      result = promised (reclaimed 4096);
    }
call-evict_example =
    call-evict found joined no_json (some 1000) (has_uid 1000) around 47 (codes "home/a")
      (reclaimed 4096) mine clean (omega arith) (codes "reclaimed 4096 byte", 115, reply_ends, refl)
      refl

call-OneCommand_example :
    OneCommand (call found joined no_json (some 1000) no_sender around (evict (codes "a"))).sent
    × (IsOwner (some 1000) no_sender
        ⊎ (call found joined no_json (some 1000) no_sender around (evict (codes "a"))
            ≡ refuse_call (denied no_sender)))
call-OneCommand_example =
    call-OneCommand found joined no_json (some 1000) no_sender around (evict (codes "a"))

abbrev busy_state : DaemonState
busy_state = record default_state { daemon_running = true; unsent = 2; uploading = codes "a" ∷ [] }

publish_state-followed_example :
    (follow set_property (publish_state default_state busy_state) default_state ≡ busy_state)
    × (follow hear (publish_state default_state busy_state) default_state ≡ busy_state)
publish_state-followed_example = publish_state-followed default_state busy_state
