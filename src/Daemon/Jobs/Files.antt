-- ===== src/Daemon/Jobs/Files.antt =====
-- The loop over the files in `Jobs::run` of crates/onedrive-daemon/src/jobs.rs. What it sees at each turn
-- (the cancel flag, the file system, the daemon and the child that reads a file) is an argument, a
-- function of the turn.
pub mod Counts
pub mod Asks
use one_drive_hydration.Prelude.{
  ℕ, zero, suc, ◌+◌, ◌%◌, ◌^◌, Bool, true, false, not, ◌&&◌, ◌||◌, Option, none, some, List, [],
  ◌∷◌, ◌++◌, ltb, length, is_empty, map, if◌then◌else◌, Result, ok, err, ErrorKind, ◌≡◌, refl,
}
use one_drive_hydration.Text.{Text, codes, text_eq, starts_with, strip_prefix}
use one_drive_hydration.Text.Words.{trim}
use one_drive_hydration.Text.Ends.{strip_suffix}
use one_drive_hydration.Text.Number.{parse_unsigned}
use one_drive_hydration.Text.FilePath.{join_parts}
use one_drive_hydration.Daemon.Bus.{u64}
use one_drive_hydration.Daemon.Control.{Socket, Exchange, control_request}
use one_drive_hydration.Daemon.Jobs.{
  Operation, keep, free, Job, JobError, answered, moved, unreadable, job_failed,
}
use one_drive_hydration.Daemon.Jobs.Paths.{PathParts, starts_at, sort_paths, dedup}

-- The job, what was written to the daemon, and the files that the child was told to read.
pub record Worker : Type 0 where
  pub job : Job
  pub sent : List Text
  pub hydrated : List PathParts

-- What the worker sees at the turn of a file: whether the job is cancelled, whether the file stands where
-- it stood and is a file, its mark (`none`: unreadable), the socket, and what the child says.
pub record FileView : Type 0 where
  pub cancelled : Bool
  pub stands : Bool
  pub mark : Option Bool
  pub socket : Socket
  pub child : Result ErrorKind Text

-- `Jobs::error`
unfoldable pub note_error : JobError → Worker → Worker
note_error e w =
    if ltb (length w.job.errors) 100
    then record w { job = record w.job { errors = w.job.errors ++ e ∷ [] } }
    else w

unfoldable pub one_done : Worker → Worker
one_done w = record w { job = record w.job { done = w.job.done + 1 } }

abbrev pub now_at : Text → Worker → Worker
now_at relative w = record w { job = record w.job { current = relative } }

abbrev pub reply_prefix : Operation → Text
reply_prefix keep = codes "hydrated "
reply_prefix free = codes "reclaimed "

number_of : Option Text → Option ℕ
number_of none = none
number_of (some n) = parse_unsigned u64 n

number_before_bytes : Option Text → Option ℕ
unfolding number_of
number_before_bytes none = none
number_before_bytes (some s) = number_of (strip_suffix (codes " bytes") s)

unfoldable pub reply_bytes : Operation → Text → Option ℕ
unfolding trim number_before_bytes
reply_bytes operation reply =
    number_before_bytes (strip_prefix (reply_prefix operation) (trim reply))

abbrev pub is_free : Operation → Bool
is_free keep = false
is_free free = true

count_bytes : Text → Text → Option ℕ → Worker → Worker
unfolding note_error
count_bytes relative reply (some n) w = record w {
  job = record w.job { bytes = (w.job.bytes + n) % u64 };
}
count_bytes relative reply none w = note_error (answered relative reply) w

-- What the worker makes of a reply.
unfoldable pub take_reply : Operation → Text → Text → Worker → Worker
unfolding count_bytes reply_bytes trim
take_reply operation relative reply w =
    if is_free operation && text_eq (trim reply) (codes "kept: AlreadyDehydrated")
    then w
    else count_bytes relative reply (reply_bytes operation reply) w

module _ (io_text : ErrorKind → Text) where
  said : Result ErrorKind Text → Text
  said (ok reply) = reply
  said (err e) = io_text e

  unfoldable pub ask_file : Operation → PathParts → Text → FileView → Worker → Worker
  unfolding take_reply said
  ask_file free path relative view w =
      let x = control_request view.socket (codes "evict " ++ relative) in
      take_reply free relative (said x.result) (record w { sent = w.sent ++ x.sent })
  ask_file keep path relative view w =
      take_reply keep relative (said view.child) (record w { hydrated = w.hydrated ++ path ∷ [] })

  -- Only a file that has content is evicted, and only one that has none is read.
  unfoldable pub by_mark : Operation → PathParts → Text → Option Bool → FileView → Worker → Worker
  unfolding ask_file note_error
  by_mark operation path relative none view w = note_error (unreadable relative) w
  by_mark keep path relative (some true) view w = ask_file keep path relative view w
  by_mark keep path relative (some false) view w = w
  by_mark free path relative (some true) view w = w
  by_mark free path relative (some false) view w = ask_file free path relative view w

  unfoldable pub work_on_file : Operation → PathParts → Text → FileView → Worker → Worker
  unfolding by_mark note_error one_done
  work_on_file operation path relative view w =
      if view.stands
      then one_done (by_mark operation path relative view.mark view (now_at relative w))
      else one_done (note_error (moved relative) w)

  -- The loop over the files, from turn `i` on.
  unfoldable pub run_files :
      (PathParts → Text) → Operation → (ℕ → FileView) → ℕ → List PathParts → Worker → Worker
  unfolding work_on_file
  run_files relative operation sees i [] w = w
  run_files relative operation sees i (path ∷ paths) w =
      let rest =
        run_files relative operation sees (suc i) paths
          (work_on_file operation path (relative path) (sees i) w) in
      if (sees i).cancelled then w else rest

pub if_holds :
    (P : Worker → Type 0) (b : Bool) (x y : Worker)
    → (b ≡ true → P x)
    → (b ≡ false → P y)
    → P (if b then x else y)
if_holds P true x y f g = f refl
if_holds P false x y f g = g refl
