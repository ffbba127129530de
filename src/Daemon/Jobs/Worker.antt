-- ===== src/Daemon/Jobs/Worker.antt =====
-- The whole of `Jobs::run` of crates/onedrive-daemon/src/jobs.rs, and the end of its thread: the files of
-- the selected paths are gathered, then the loop of Files is run over them. What is seen at the turn of
-- a selected path is an argument, with what `collect` finds below a folder; so is whether
-- `std::env::current_exe` gives a name.
pub mod Ends
use one_drive_hydration.Prelude.{
  ℕ, zero, suc, Bool, true, false, not, Option, none, some, List, [], ◌∷◌, ◌++◌, length, is_empty,
  if◌then◌else◌, Result, ok, err, ErrorKind, other,
}
use one_drive_hydration.Text.{Text, codes, text_eq, starts_with}
use one_drive_hydration.Text.Words.{trim, lines}
use one_drive_hydration.Text.FilePath.{join_parts}
use one_drive_hydration.Daemon.Control.{Socket, Exchange, control_request}
use one_drive_hydration.Daemon.Jobs.{Operation, keep, free, Job, answered, job_failed}
use one_drive_hydration.Daemon.Jobs.Paths.{PathParts, starts_at, sort_paths, dedup}
use one_drive_hydration.Daemon.Jobs.Files.{Worker, FileView, note_error, run_files}

-- What the worker sees at the turn of a selected path; `canonical` is of the root joined with a line.
pub record PathView : Type 0 where
  pub cancelled : Bool
  pub socket : Socket
  pub is_dir : Bool
  pub collected : Result ErrorKind (List PathParts)
  pub canonical : Text → Result ErrorKind PathParts

-- Files, or the end of the run: at a cancellation, or with an error.
pub data Gathered : Type 0 where
  files : List PathParts → Gathered
  stopped : Gathered
  broken : ErrorKind → Gathered

unfoldable pub strip_parts : PathParts → PathParts → PathParts
strip_parts [] path = path
strip_parts (c ∷ root) [] = []
strip_parts (c ∷ root) (d ∷ path) = strip_parts root path

-- The path below the root, as text.
unfoldable pub relative_to : PathParts → PathParts → Text
unfolding strip_parts join_parts
relative_to root path = join_parts (strip_parts root path)

abbrev pub pin_command : Operation → Text
pin_command keep = codes "pin "
pin_command free = codes "unpin "

abbrev pub pinned_word : Operation → Text
pinned_word keep = codes "pinned"
pinned_word free = codes "unpinned"

also : PathParts → Result ErrorKind (List PathParts) → Result ErrorKind (List PathParts)
also child (err e) = err e
also child (ok children) = ok (child ∷ children)

add_child :
    PathParts
    → Result ErrorKind PathParts
    → Result ErrorKind (List PathParts)
    → Result ErrorKind (List PathParts)
unfolding also starts_at
add_child path (err e) rest = err e
add_child path (ok child) rest = if not (starts_at child path) then err other else also child rest

-- The children that the daemon listed, each below the selected path.
unfoldable pub children_of :
    PathParts → (Text → Result ErrorKind PathParts) → List Text → Result ErrorKind (List PathParts)
unfolding add_child
children_of path canonical [] = ok []
children_of path canonical (l ∷ ls) =
    let rest = children_of path canonical ls in
    if is_empty l then rest else add_child path (canonical l) rest

gathered : Result ErrorKind (List PathParts) → Gathered
gathered (ok found) = files found
gathered (err e) = broken e

by_pending : PathParts → Text → PathView → Result ErrorKind Text → Worker → Gathered × Worker
unfolding gathered children_of starts_with note_error lines
by_pending path relative view (err e) w = (broken e, w)
by_pending path relative view (ok reply) w =
    if starts_with reply (codes "error:")
    then (files [], note_error (answered relative reply) w)
    else (gathered (children_of path view.canonical (lines reply)), w)

-- The files below a folder: those that the daemon lists, or those that `collect` finds.
files_below : Operation → PathParts → Text → PathView → Worker → Gathered × Worker
unfolding by_pending gathered
files_below keep path relative view w =
    let x = control_request view.socket (codes "pending " ++ relative) in
    by_pending path relative view x.result (record w { sent = w.sent ++ x.sent })
files_below free path relative view w = (gathered view.collected, w)

pinned : Operation → PathParts → Text → PathView → Worker → Gathered × Worker
unfolding files_below
pinned operation path relative view w =
    if not view.is_dir then (files (path ∷ []), w) else files_below operation path relative view w

by_pin :
    Operation → PathParts → Text → PathView → Result ErrorKind Text → Worker → Gathered × Worker
unfolding pinned note_error trim
by_pin operation path relative view (err e) w = (broken e, w)
by_pin operation path relative view (ok reply) w =
    if not (text_eq (trim reply) (pinned_word operation))
    then (files [], note_error (answered relative reply) w)
    else pinned operation path relative view w

-- The files of one selected path.
unfoldable pub path_turn : PathParts → Operation → PathView → PathParts → Worker → Gathered × Worker
unfolding by_pin relative_to
path_turn root operation view path w =
    if view.cancelled
    then (stopped, w)
    else let x = control_request view.socket (pin_command operation ++ relative_to root path) in
      by_pin operation path (relative_to root path) view x.result
        (record w { sent = w.sent ++ x.sent })

and_files : List PathParts → Gathered → Gathered
and_files found (files more) = files (found ++ more)
and_files found stopped = stopped
and_files found (broken e) = broken e

go_on : Gathered → Worker → Gathered × Worker → Gathered × Worker
unfolding and_files
go_on (files found) w later = (and_files found later.0, later.1)
go_on stopped w later = (stopped, w)
go_on (broken e) w later = (broken e, w)

-- The loop over the selected paths, from turn `i` on.
unfoldable pub gather :
    PathParts → Operation → (ℕ → PathView) → ℕ → List PathParts → Worker → Gathered × Worker
unfolding path_turn go_on
gather root operation sees i [] w = (files [], w)
gather root operation sees i (path ∷ paths) w =
    let turn = path_turn root operation (sees i) path w in
    let later = gather root operation sees (suc i) paths turn.1 in go_on turn.0 turn.1 later

module _ (io_text : ErrorKind → Text) (current_exe : Result ErrorKind (Unit {0})) where
  -- The files, if the name of the running program could be had.
  with_exe :
      PathParts
      → Operation
      → (ℕ → FileView)
      → List PathParts
      → Result ErrorKind (Unit {0})
      → Worker
      → Worker
  unfolding run_files note_error
  with_exe root operation sees todo (ok _) w =
      run_files io_text (relative_to root) operation sees zero todo w
  with_exe root operation sees todo (err e) w = note_error (job_failed e) w

  -- With the files, sorted and each once; an error of the run becomes one of the job. The total is set
  -- before the name of the running program is asked for.
  unfoldable pub work_through : PathParts → Operation → (ℕ → FileView) → Gathered → Worker → Worker
  unfolding with_exe note_error sort_paths dedup
  work_through root operation sees (files found) w =
      let todo = dedup (sort_paths found) in
      with_exe root operation sees todo current_exe
        (record w { job = record w.job { total = length todo } })
  work_through root operation sees stopped w = w
  work_through root operation sees (broken e) w = note_error (job_failed e) w

  -- `cancelled` is the cancel flag when the thread ends.
  unfoldable pub work :
      PathParts
      → Operation
      → (ℕ → PathView)
      → (ℕ → FileView)
      → Bool
      → List PathParts
      → Worker
      → Worker
  unfolding gather work_through
  work root operation sees_paths sees_files cancelled selected w =
      let (found, v) = gather root operation sees_paths zero selected w in
      let u = work_through root operation sees_files found v in
      record u { job = record u.job { cancelled = cancelled; running = false } }
