-- ===== src/Installer/Plan/Execute/Perform.antt =====
-- One action of `execute_inner`, and its loop (crates/installer/src/plan.rs).
use one_drive_hydration.Installer.Fstab.{fstab_text}
use one_drive_hydration.Prelude.{
  ℕ, zero, suc, String, Bool, not, Option, none, some, List, [], ◌∷◌, ◌++◌, reverse, if◌then◌else◌,
  any, unwrap_or, length, Result, ok, err, ErrorKind, not_found, invalid_input, ◌==◌,
}
use one_drive_hydration.Text.{Text, codes}
use one_drive_hydration.Text.FilePath.{path_eq}
use one_drive_hydration.Text.FilePath.Parent.{parent, with_suffix}
use one_drive_hydration.Installer.Mounts.{MountRow, parse_mountinfo, find_mount}
use one_drive_hydration.Installer.Plan.{
  Owner, Notice, Action, write_file, symlink, unchanged, append_fstab, remove_file, run,
  verify_unmounted, manual,
}
use one_drive_hydration.Installer.Plan.Execute.{
  ExecMode, Event, created_dir, chowned, wrote, renamed, linked, opened, appended, removed, ran,
  table_read, History, System, ExecError, at, plain, command_failed, mount_remains, Exec, pure,
  raise, request, observe, ◌>>=◌, ◌>>◌,
}

-- A line of the transcript, by the words that it begins with.
pub data LogLine : Type 0 where
  wrote_file would_write was_unchanged removed_file already_absent would_remove : Text → LogLine
  enabled would_enable appended_to would_append : Text → Text → LogLine
  ran_command would_run : List Text → String → LogLine
  verified_unmounted would_verify : Text → LogLine
  notice : Notice → LogLine

-- The directories that are missing, the deepest first. Each parent is shorter, so as many rounds
-- as the path has characters are enough.
missing_dirs : ℕ → (Text → Bool) → Text → List Text
missing_dirs zero exists dir = []
missing_dirs (suc fuel) exists dir =
    let above : List Text = elim (parent dir) [ some p ↦ missing_dirs fuel exists p | none ↦ [] ] in
    if exists dir then [] else dir ∷ above

module _ (s : System) where
  abbrev is_root : Bool
  is_root = s.euid == 0

  -- `chown_if` and `lchown_if`: nothing to do without an owner or without root. A path with a null
  -- byte has no C string.
  unfoldable pub chown_impl : (ErrorKind → ExecError) → Text → Owner → Exec (Unit {0})
  chown_impl wrap path none = pure tt
  chown_impl wrap path (some owner) =
      if not is_root
      then pure tt
      else if any (λ c. c == 0) path
      then raise (wrap invalid_input)
      else request wrap (λ h. s.chown h path owner) (chowned path owner)

  unfoldable pub create_each : (ErrorKind → ExecError) → Owner → List Text → Exec (Unit {0})
  create_each wrap owner [] = pure tt
  create_each wrap owner (dir ∷ dirs) = do
    request wrap (λ h. s.create_dir h dir) (created_dir dir)
    chown_impl wrap dir owner
    create_each wrap owner dirs

  unfoldable pub create_dirs_owned : (ErrorKind → ExecError) → Text → Owner → Exec (Unit {0})
  unfolding missing_dirs
  create_dirs_owned wrap dir owner = do
    missing ← observe (λ h. missing_dirs (suc (length dir)) (s.exists h) dir)
    create_each wrap owner (reverse missing)

  abbrev parent_of : Text → Text
  parent_of path = unwrap_or (parent path) []

  unfoldable pub perform_write : Text → Text → Owner → Exec (List LogLine)
  perform_write path text owner =
      let tmp = with_suffix path (codes ".tmp-install") in
      do
        create_dirs_owned (at "creating directories for" path) (parent_of path) owner
        request (at "writing" tmp) (λ h. s.write h tmp text) (wrote tmp text)
        chown_impl (at "chowning" tmp) tmp owner
        request (at "renaming into place" path) (λ h. s.rename h tmp path) (renamed tmp path)
        pure (wrote_file path ∷ [])

  make_link : Text → Text → Exec (Unit {0})
  make_link path target = request plain (λ h. s.symlink h path target) (linked path target)

  unfoldable pub replace_link : Text → Text → Result ErrorKind Text → Exec (Unit {0})
  unfolding make_link
  replace_link path target (err e) = make_link path target
  replace_link path target (ok existing) =
      if path_eq existing target
      then pure tt
      else do request plain (λ h. s.remove_file h path) (removed path); make_link path target

  unfoldable pub perform_symlink : Text → Text → Owner → Exec (List LogLine)
  perform_symlink path target owner = do
    create_dirs_owned plain (parent_of path) owner
    existing ← observe (λ h. s.read_link h path)
    replace_link path target existing
    chown_impl plain path owner
    pure (enabled path target ∷ [])

  unfoldable pub perform_append : Text → Text → Exec (List LogLine)
  perform_append path line = do
    create_dirs_owned (at "creating directories for" path) (parent_of path) none
    request (at "opening for append" path) (λ h. s.open_append h path) (opened path)
    request plain (λ h. s.append h path (fstab_text line)) (appended path (fstab_text line))
    pure (appended_to path line ∷ [])

  -- A file that is absent already is no error.
  unfoldable pub removal_line : Text → Result ErrorKind (Unit {0}) → Exec (List LogLine)
  removal_line path (ok _) = pure (removed_file path ∷ [])
  removal_line path (err not_found) = pure (already_absent path ∷ [])
  removal_line path (err e) = raise (at "removing" path e)

  -- A request whose failure is looked at by what follows.
  unfoldable pub attempt :
      {A : Type 0}
      → (History → Result ErrorKind A)
      → (Result ErrorKind A → Event)
      → Exec (Result ErrorKind A)
  attempt answer event h = (ok (answer h), event (answer h) ∷ h)

  unfoldable pub perform_remove : Text → Exec (List LogLine)
  unfolding attempt
  perform_remove path = do
    answer ← attempt (λ h. s.remove_file h path) (removed path)
    removal_line path answer

  unfoldable pub perform_run : List Text → String → Exec (List LogLine)
  perform_run argv why = do
    success ← request plain (λ h. s.status h argv) (ran argv)
    if success then pure (ran_command argv why ∷ []) else raise (command_failed argv why)

  unfoldable pub verification : Text → Option MountRow → Exec (List LogLine)
  verification mount (some row) = raise (mount_remains mount)
  verification mount none = pure (verified_unmounted mount ∷ [])

  unfoldable pub perform_verify : Text → Exec (List LogLine)
  perform_verify mount = do
    table ← request plain s.mountinfo table_read
    verification mount (find_mount (parse_mountinfo table) mount)

  -- The body of the loop, with the lines that it pushes.
  unfoldable pub perform : ExecMode → Action → Exec (List LogLine)
  perform mode (write_file path text owner) =
      if mode.write_files then perform_write path text owner else pure (would_write path ∷ [])
  perform mode (symlink path target owner) =
      if mode.write_files
      then perform_symlink path target owner
      else pure (would_enable path target ∷ [])
  perform mode (unchanged path) = pure (was_unchanged path ∷ [])
  perform mode (append_fstab path line) =
      if mode.write_files then perform_append path line else pure (would_append path line ∷ [])
  perform mode (remove_file path) =
      if mode.write_files then perform_remove path else pure (would_remove path ∷ [])
  perform mode (run argv why) =
      if mode.run_commands then perform_run argv why else pure (would_run argv why ∷ [])
  perform mode (verify_unmounted mount) =
      if mode.run_commands then perform_verify mount else pure (would_verify mount ∷ [])
  perform mode (manual text) = pure (notice text ∷ [])

-- The transcript and the result of `execute`, with all that was asked of the system.
pub record Report : Type 0 where
  pub log : List LogLine
  pub result : Result ExecError (Unit {0})
  pub history : History

abbrev pub logged : List LogLine → Report → Report
logged lines r = record r { log = lines ++ r.log }

-- A failed action ends the loop; the transcript keeps what was done before it.
unfoldable pub after_action : Result ExecError (List LogLine) → History → Report → Report
after_action (ok lines) h rest = logged lines rest
after_action (err e) h rest = record { log = []; result = err e; history = h }

unfoldable pub execute : System → ExecMode → List Action → History → Report
execute s mode [] h = record { log = []; result = ok tt; history = h }
execute s mode (a ∷ actions) h =
    let (r, h') = perform s mode a h in after_action r h' (execute s mode actions h')
