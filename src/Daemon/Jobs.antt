-- ===== src/Daemon/Jobs.antt =====
-- `Jobs` of crates/onedrive-daemon/src/jobs.rs: which paths a job takes, and its start. A path that was
-- made canonical is the list of its components; `canonicalize` is an argument.
pub mod Paths
pub mod Covers
pub mod Starts
pub mod Files
pub mod Worker
pub mod Issues
use one_drive_hydration.Prelude.{
  ℕ, ◌+◌, ◌-◌, Bool, true, false, not, ◌&&◌, ◌||◌, Option, none, some, List, [], ◌∷◌, ◌++◌, any,
  is_empty, ltb, length, min, ◌==◌, if◌then◌else◌, Result, ok, err, ErrorKind,
}
use one_drive_hydration.Text.{Text, codes, text_eq}
use one_drive_hydration.Text.FilePath.{texts_eq}
use one_drive_hydration.Daemon.Bus.{u64}
use one_drive_hydration.Daemon.Jobs.Paths.{PathParts, starts_at, sort_paths, dedup, retain}

pub data Operation : Type 0 where
  keep free : Operation

pub data JobError : Type 0 where
  answered : Text → Text → JobError
  moved unreadable : Text → JobError
  job_failed : ErrorKind → JobError

pub record Job : Type 0 where
  pub id : ℕ
  pub running : Bool
  pub operation : Option Operation
  pub current : Text
  pub done : ℕ
  pub total : ℕ
  pub bytes : ℕ
  pub cancelled : Bool
  pub errors : List JobError

pub record Jobs : Type 0 where
  pub state : Job
  pub cancel : Bool

pub data StartError : Type 0 where
  no_valid_choice outside already_running : StartError
  io : ErrorKind → StartError

-- `none` for a word that is no operation.
unfoldable pub operation_of : Text → Option Operation
unfolding text_eq
operation_of word =
    if text_eq word (codes "keep")
    then some keep
    else if text_eq word (codes "free")
    then some free
    else none

-- `Job::default()`, with an id and an operation.
unfoldable pub new_job : ℕ → Operation → Job
new_job id operation = record {
  id = id;
  running = true;
  operation = some operation;
  current = [];
  done = 0;
  total = 0;
  bytes = 0;
  cancelled = false;
  errors = [];
}

unfoldable pub saturating_next : ℕ → ℕ
saturating_next id = min (u64 - 1) (id + 1)

unfoldable pub has_line_break : PathParts → Bool
has_line_break path = any (any (λ c. c == 10 || c == 13)) path

-- The selected paths that are below no other.
unfoldable pub topmost : List PathParts → List PathParts
unfolding retain starts_at sort_paths dedup
topmost paths =
    let all = dedup (sort_paths paths) in
    retain (λ p. not (any (λ parent. not (texts_eq p parent) && starts_at p parent) all)) all

module _ (canonicalize : Text → Result ErrorKind PathParts) where
  check_path : PathParts → Result ErrorKind PathParts → Result StartError PathParts
  unfolding starts_at texts_eq has_line_break
  check_path root (err e) = err (io e)
  check_path root (ok path) =
      if texts_eq path root || not (starts_at path root) || has_line_break path
      then err outside
      else ok path

  and_path :
      Result StartError PathParts
      → Result StartError (List PathParts)
      → Result StartError (List PathParts)
  and_path (err e) rest = err e
  and_path (ok path) (err e) = err e
  and_path (ok path) (ok paths) = ok (path ∷ paths)

  -- The loop over the chosen paths, which ends at the first that is refused.
  unfoldable pub select_paths : PathParts → List Text → Result StartError (List PathParts)
  unfolding check_path and_path
  select_paths root [] = ok []
  select_paths root (path ∷ paths) =
      and_path (check_path root (canonicalize path)) (select_paths root paths)

  begin :
      Jobs
      → Operation
      → Result StartError (List PathParts)
      → Result StartError (List PathParts × Jobs)
  unfolding topmost new_job saturating_next
  begin jobs operation (err e) = err e
  begin jobs operation (ok paths) =
      if jobs.state.running
      then err already_running
      else ok (
        topmost paths,
        record { state = new_job (saturating_next jobs.state.id) operation; cancel = false },
      )

  start_in :
      Jobs
      → List Text
      → Operation
      → Result ErrorKind PathParts
      → Result StartError (List PathParts × Jobs)
  unfolding begin select_paths
  start_in jobs paths operation (err e) = err (io e)
  start_in jobs paths operation (ok root) = begin jobs operation (select_paths root paths)

  start_with :
      Jobs → Text → List Text → Option Operation → Result StartError (List PathParts × Jobs)
  unfolding start_in
  start_with jobs root paths none = err no_valid_choice
  start_with jobs root paths (some operation) =
      if is_empty paths || ltb 1000 (length paths)
      then err no_valid_choice
      else start_in jobs paths operation (canonicalize root)

  -- `Jobs::start`: what the worker is given and the jobs with the new one, or the error, which leaves the
  -- jobs as they are.
  unfoldable pub start : Jobs → Text → List Text → Text → Result StartError (List PathParts × Jobs)
  unfolding start_with operation_of
  start jobs root paths operation = start_with jobs root paths (operation_of operation)
