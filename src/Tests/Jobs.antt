-- ===== src/Tests/Jobs.antt =====
-- Availability jobs: a start with a folder and a file in it, and a worker that evicts a file.
use one_drive_hydration.Prelude.{
  ℕ, zero, ◌≡◌, refl, true, false, some, List, [], ◌∷◌, Result, ok, err, ErrorKind, not_found, ◌==◌,
}
use one_drive_hydration.Text.{Text, codes, text_eq, split}
use one_drive_hydration.Text.FilePath.{texts_eq}
use one_drive_hydration.Daemon.Control.{Socket}
use one_drive_hydration.Daemon.Jobs.{
  keep, free, Jobs, new_job, operation_of, saturating_next, has_line_break, topmost, select_paths,
  start,
}
use one_drive_hydration.Daemon.Jobs.Paths.{PathParts, starts_at, sort_paths, path_le, dedup, retain}
use one_drive_hydration.Daemon.Jobs.Starts.{IsStarted, start-IsStarted}
use one_drive_hydration.Daemon.Jobs.Files.{Worker, FileView, run_files}
use one_drive_hydration.Daemon.Jobs.Files.Asks.{both, all_requests, run_files-all_requests}
use one_drive_hydration.Daemon.Jobs.Worker.{PathView, relative_to, work}
use one_drive_hydration.Daemon.Jobs.Worker.Ends.{Settled, work-Settled}

-- A file system in which every path is canonical.
abbrev parts : Text → Result ErrorKind PathParts
parts path = ok (split 47 path)

abbrev idle : Jobs
idle = record { state = record (new_job 6 keep) { running = false }; cancel = true }

abbrev started : Jobs
started = record { state = new_job 7 free; cancel = false }

abbrev chosen : List Text
chosen = codes "/d/a/f" ∷ codes "/d/a" ∷ []

start_works :
    start parts idle (codes "/d") chosen (codes "free")
    ≡ ok ((split 47 (codes "/d/a")) ∷ [], started)
unfolding start operation_of select_paths topmost saturating_next new_job has_line_break starts_at
    sort_paths path_le dedup retain text_eq texts_eq split
start_works = refl

start-IsStarted_example :
    IsStarted parts idle (codes "/d") chosen (codes "free") (split 47 (codes "/d/a") ∷ []) started
start-IsStarted_example =
    start-IsStarted parts idle (codes "/d") chosen (codes "free") (split 47 (codes "/d/a") ∷ [])
      started start_works

abbrev said_by : ErrorKind → Text
said_by e = codes "error"

abbrev reclaims : Socket
reclaims command = ok (codes "reclaimed 10 bytes")

-- The first file has content, the second has none, and then the job is cancelled.
abbrev sees : ℕ → FileView
sees i = record {
  cancelled = i == 2;
  stands = true;
  mark = some (i == 1);
  socket = reclaims;
  child = err not_found;
}

abbrev fresh : Worker
fresh = record { job = new_job 7 free; sent = []; hydrated = [] }

abbrev three : List PathParts
three =
    (codes "d" ∷ codes "a" ∷ []) ∷ (codes "d" ∷ codes "b" ∷ []) ∷ (codes "d" ∷ codes "c" ∷ []) ∷ []

abbrev name : PathParts → Text
name path = relative_to (codes "d" ∷ []) path

run_files-all_requests_example :
    (
      (run_files said_by name free sees zero three fresh).sent,
      (run_files said_by name free sees zero three fresh).hydrated,
    )
    ≡ both ([], []) (all_requests name free sees zero three)
run_files-all_requests_example = run_files-all_requests said_by name free sees zero three fresh

abbrev sees_path : ℕ → PathView
sees_path i = record {
  cancelled = false;
  socket = λ command. ok (codes "unpinned");
  is_dir = true;
  collected = ok three;
  canonical = parts;
}

work-Settled_example :
    ((work said_by
        (ok tt)
        (codes "d" ∷ [])
        free
        sees_path
        sees
        false
        ((codes "d" ∷ []) ∷ [])
        (record { job = new_job 7 free; sent = []; hydrated = [] })).job.running
      ≡ false)
    × Settled said_by (ok tt) sees (
        work said_by
          (ok tt)
          (codes "d" ∷ [])
          free
          sees_path
          sees
          false
          ((codes "d" ∷ []) ∷ [])
          (record { job = new_job 7 free; sent = []; hydrated = [] }))
work-Settled_example =
    work-Settled said_by (ok tt) (codes "d" ∷ []) free sees_path sees false ((codes "d" ∷ []) ∷ [])
      7
