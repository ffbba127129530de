-- ===== src/Daemon/Surface.antt =====
-- `ControlSurface` of crates/onedrive-daemon/src/dbus.rs: its methods, by what a call itself writes to
-- the daemon's socket and what it answers. The JSON reader and writer and `canonicalize` are arguments;
-- what the bus driver says of a caller is a value. What a call leaves of the jobs is `start` of
-- Daemon/Jobs, and of the sign-in the steps of Surface/Enrolling; the thread that
-- `open_setup_wizard` starts is not modelled.
pub mod Signals
pub mod Enrolling
pub mod Guard
pub mod Evicts
use one_drive_hydration.Prelude.{
  ℕ, Bool, true, false, not, ◌&&◌, ◌||◌, String, Option, none, some, List, [], ◌∷◌, ◌++◌, any, all,
  length, ltb, leb, is_empty, ◌==◌, if◌then◌else◌, Result, ok, err, ErrorKind, not_found,
  connection_refused, invalid_input,
}
use one_drive_hydration.Text.{Text, codes, text_eq, starts_with}
use one_drive_hydration.Text.Words.{trim}
use one_drive_hydration.Text.Bytes.{as_bytes}
use one_drive_hydration.Text.Number.{decimal}
use one_drive_hydration.Daemon.Control.{Socket, is_forbidden_char, Exchange, control_request}
use one_drive_hydration.Daemon.Jobs.{Jobs, StartError, start}
use one_drive_hydration.Daemon.Jobs.Paths.{PathParts}
use one_drive_hydration.Daemon.Jobs.Issues.{IssueError, check_issues}
use one_drive_hydration.Daemon.Bus.{EvictReply, reclaimed, kept, failed, parse_evict_reply}

-- What can be learned of who calls.
pub data Caller : Type 0 where
  no_sender bus_unreachable unidentified no_uid : Caller
  has_uid : ℕ → Caller

pub data Detail : Type 0 where
  start_refused : StartError → Detail
  issue : IssueError → Detail
  poisoned : Detail
  said : Text → Detail
  io : ErrorKind → Detail
  advice : String → Detail
  malformed : Detail

pub data BusError : Type 0 where
  denied : Caller → BusError
  was_kept : Text → BusError
  has_failed : Detail → BusError
  daemon_unavailable : ErrorKind → BusError
  invalid_path not_ready enrollment_unavailable enrollment_busy : BusError

-- `caller_permitted`
unfoldable pub caller_permitted : Option ℕ → Caller → Bool
caller_permitted none caller = true
caller_permitted (some required) (has_uid uid) = uid == required
caller_permitted (some required) _ = false

pub data Value : Type 0 where
  done : Value
  text : Text → Value
  texts : List Text → Value
  bytes : ℕ → Value

pub data Method : Type 0 where
  review_conflict : Text → Method
  resolve_conflict : Text → Text → Method
  set_folder_selection : List Text → Method
  list_cloud_folders : Text → Method
  pause : ℕ → Method
  retry_pending : Method
  evict : Text → Method
  start_availability_job : Text → List Text → Method
  cancel_availability_job open_setup_wizard begin_enrollment enrollment_status : Method

-- The fields of `ControlSurface`, what is read of its desktop state, and the world that it meets:
-- `desktop` is `none` if the state is no JSON, and else its `mount`, if that is a text; `issues` are
-- those of `check_issues`; `prepared` is the URL of a sign-in with its listener bound; `status` is
-- `none` if the lock is poisoned.
pub record Around : Type 0 where
  pub jobs : Jobs
  pub socket : Socket
  pub daemon_running : Bool
  pub desktop : Option (Option Text)
  pub issues : List Text
  pub client_id : Option Text
  pub busy : Bool
  pub prepared : Result ErrorKind Text
  pub status : Option Text

abbrev pub Answer : Type 0
Answer = Exchange BusError Value

abbrev pub refuse_call : BusError → Answer
refuse_call e = record { sent = []; result = err e }

abbrev pub is_hex_digit : ℕ → Bool
is_hex_digit c = (leb 48 c && leb c 57) || (leb 65 c && leb c 70) || (leb 97 c && leb c 102)

is_token : Text → Bool
is_token token = length (as_bytes token) == 32 && all is_hex_digit (as_bytes token)

is_choice : Text → Bool
unfolding text_eq
is_choice choice =
    text_eq choice (codes "local")
    || text_eq choice (codes "cloud")
    || text_eq choice (codes "both")

-- The daemon's reply as a result: by `read` if it came.
answered : (Text → Result BusError Value) → Result ErrorKind Text → Result BusError Value
answered read (ok reply) = read reply
answered read (err e) = err (has_failed (io e))

-- One request on a worker thread.
abbrev ask : Socket → Text → (Text → Result BusError Value) → Answer
unfolding answered control_request
ask socket command read =
    let x = control_request socket command in
    record { sent = x.sent; result = answered read x.result }

-- Success is exactly this word.
expect : Text → Text → Result BusError Value
unfolding text_eq trim
expect word reply = if text_eq (trim reply) word then ok done else err (has_failed (said reply))

unless_error : Text → Result BusError Value → Result BusError Value
unfolding starts_with
unless_error reply r =
    if starts_with reply (codes "error:") then err (has_failed (said reply)) else r

abbrev pub evict_value : EvictReply → Result BusError Value
evict_value (reclaimed n) = ok (bytes n)
evict_value (kept reason) = err (was_kept reason)
evict_value (failed detail) = err (has_failed (said detail))

unfoldable pub evict_answer : Result ErrorKind Text → Result BusError Value
unfolding parse_evict_reply
evict_answer (ok reply) = evict_value (parse_evict_reply reply)
evict_answer (err not_found) = err (daemon_unavailable not_found)
evict_answer (err connection_refused) = err (daemon_unavailable connection_refused)
evict_answer (err e) = err (has_failed (io e))

-- `BrowserEnrollment::begin`: no client id that is empty or has a space.
begin_with : Text → Result ErrorKind Text → Result ErrorKind Text
begin_with client_id prepared =
    if is_empty client_id || any (λ c. c == 32 || c == 9 || c == 10 || c == 12 || c == 13) client_id
    then err invalid_input
    else prepared

begun : Result ErrorKind Text → Result BusError Value
begun (ok url) = ok (text url)
begun (err e) = err (has_failed (io e))

begin_answer : Option Text → Bool → Result ErrorKind Text → Result BusError Value
unfolding begin_with begun
begin_answer none is_busy prepared = err enrollment_unavailable
begin_answer (some client_id) true prepared = err enrollment_busy
begin_answer (some client_id) false prepared = begun (begin_with client_id prepared)

status_answer : Option Text → Result BusError Value
status_answer none = err (has_failed poisoned)
status_answer (some status) = ok (text status)

abbrev pub answer_only : Result BusError Value → Answer
answer_only r = record { sent = []; result = r }

module _ (canonicalize : Text → Result ErrorKind PathParts) where
  started : Result StartError (List PathParts × Jobs) → Result BusError Value
  started (err e) = err (has_failed (start_refused e))
  started (ok job) = ok done

  start_checked :
      Jobs → Text → List Text → Text → Result IssueError (Unit {0}) → Result BusError Value
  unfolding started start
  start_checked jobs mount paths operation (err e) = err (has_failed (issue e))
  start_checked jobs mount paths operation (ok _) =
      started (start canonicalize jobs mount paths operation)

  job_answer : Around → Text → List Text → Option (Option Text) → Result BusError Value
  unfolding start_checked check_issues
  job_answer around operation paths none = err (has_failed malformed)
  job_answer around operation paths (some none) = err not_ready
  job_answer around operation paths (some (some mount)) =
      if around.daemon_running
      then start_checked around.jobs mount paths operation
          (check_issues canonicalize mount paths around.issues)
      else err not_ready

module _ (canonicalize : Text → Result ErrorKind PathParts) (to_json : List Text → Text)
    (from_json : Text → Option (List Text)) where
  listed : Text → Result BusError Value
  listed reply = elim (from_json reply) [
    | some folders ↦ ok (texts folders)
    | none ↦ err (has_failed malformed)
  ]

  -- A call that the caller is permitted to make.
  unfoldable pub permitted_call : Around → Method → Answer
  unfolding ask expect unless_error listed is_token is_choice evict_answer is_forbidden_char decimal
      control_request trim job_answer begin_answer status_answer
  permitted_call around (review_conflict path) =
      ask around.socket (codes "review " ++ path) (λ reply. unless_error reply (ok (text reply)))
  permitted_call around (resolve_conflict token choice) =
      if around.jobs.state.running
      then refuse_call (has_failed (advice "Finish or cancel the availability job first"))
      else if not (is_token token) || not (is_choice choice)
      then refuse_call (has_failed (advice "Review the versions before choosing one"))
      else ask around.socket (codes "resolve " ++ (token ++ 32 ∷ choice))
          (expect (codes "resolution started"))
  permitted_call around (set_folder_selection paths) =
      if around.jobs.state.running
      then refuse_call (has_failed (advice "Finish or cancel the current availability job first"))
      else ask around.socket (codes "selection " ++ to_json paths)
          (expect (codes "selection saved"))
  permitted_call around (list_cloud_folders path) =
      ask around.socket (codes "list_cloud " ++ trim path)
        (λ reply. unless_error reply (listed reply))
  permitted_call around (pause seconds) =
      if ltb 86400 seconds
      then refuse_call (has_failed (advice "Pause is limited to 24 hours"))
      else ask around.socket (codes "pause " ++ decimal seconds) (expect (codes "ok"))
  permitted_call around retry_pending = ask around.socket (codes "retry") (expect (codes "ok"))
  permitted_call around (evict path) =
      if is_empty path || any is_forbidden_char path
      then refuse_call invalid_path
      else let x = control_request around.socket (codes "evict " ++ path) in
        record { sent = x.sent; result = evict_answer x.result }
  permitted_call around (start_availability_job operation paths) =
      answer_only (job_answer canonicalize around operation paths around.desktop)
  permitted_call around cancel_availability_job = answer_only (ok done)
  permitted_call around open_setup_wizard = answer_only (ok done)
  permitted_call around begin_enrollment =
      answer_only (begin_answer around.client_id around.busy around.prepared)
  permitted_call around enrollment_status = answer_only (status_answer around.status)

  unfoldable pub call : Option ℕ → Caller → Around → Method → Answer
  unfolding caller_permitted permitted_call
  call require_uid caller around method =
      if caller_permitted require_uid caller
      then permitted_call around method
      else refuse_call (denied caller)
