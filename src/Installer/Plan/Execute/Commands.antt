-- ===== src/Installer/Plan/Execute/Commands.antt =====
-- What a command and a look at the mount table do in a run that may run commands.
use one_drive_hydration.Prelude.{
  String, ◌≡◌, refl, Bool, true, false, Option, none, some, List, [], ◌∷◌, arith, Option-cases, inl,
  inr, Result, ok, err, ErrorKind,
}
use one_drive_hydration.Text.{Text}
use one_drive_hydration.Installer.Mounts.{MountRow, parse_mountinfo, find_mount}
use one_drive_hydration.Installer.Plan.{Action, run, verify_unmounted}
use one_drive_hydration.Installer.Plan.Execute.{
  ExecMode, ran, table_read, History, System, ExecError, plain, command_failed, mount_remains,
  ◌>>=◌,
}
use one_drive_hydration.Installer.Plan.Execute.Perform.{
  LogLine, ran_command, verified_unmounted, perform, perform_run, perform_verify, verification,
  after_action, execute,
}

abbrev run_result : List Text → String → Result ErrorKind Bool → Result ExecError (List LogLine)
run_result argv why (ok true) = ok (ran_command argv why ∷ [])
run_result argv why (ok false) = err (command_failed argv why)
run_result argv why (err e) = err (plain e)

abbrev table_result : Text → Option MountRow → Result ExecError (List LogLine)
table_result mount (some row) = err (mount_remains mount)
table_result mount none = ok (verified_unmounted mount ∷ [])

abbrev verify_result : Text → Result ErrorKind Text → Result ExecError (List LogLine)
verify_result mount (ok table) = table_result mount (find_mount (parse_mountinfo table) mount)
verify_result mount (err e) = err (plain e)

module _ (s : System) (mode : ExecMode) (runs : mode.run_commands ≡ true) where
  perform-run :
      (argv : List Text) (why : String) (h : History)
      → perform s mode (run argv why) h
        ≡ (run_result argv why (s.status h argv), ran argv (s.status h argv) ∷ h)
  unfolding perform perform_run ◌>>=◌
  perform-run argv why h = rw runs (ground arith)

  perform-verify_unmounted :
      (mount : Text) (h : History)
      → perform s mode (verify_unmounted mount) h
        ≡ (verify_result mount (s.mountinfo h), table_read (s.mountinfo h) ∷ h)
  unfolding perform perform_verify verification ◌>>=◌
  perform-verify_unmounted mount h = rw runs (ground arith)

module _ (s : System) (mode : ExecMode) (runs : mode.run_commands ≡ true) (P : History → Type 0)
    (actions : List Action) (h : History) where
  after_run :
      (argv : List Text) (why : String) (r : Result ErrorKind Bool)
      → P (ran argv r ∷ h)
      → (r ≡ ok true → P (execute s mode actions (ran argv r ∷ h)).history)
      → P
          (after_action
            (run_result argv why r)
            (ran argv r ∷ h)
            (execute s mode actions (ran argv r ∷ h))).history
  unfolding after_action
  after_run argv why (ok true) stop go = go refl
  after_run argv why (ok false) stop go = stop
  after_run argv why (err e) stop go = stop

  -- Either the command fails and ends the run, or it succeeds and the run goes on.
  pub execute-run :
      (argv : List Text) (why : String)
      → ((r : Result ErrorKind Bool) → P (ran argv r ∷ h))
      → P (execute s mode actions (ran argv (ok true) ∷ h)).history
      → P (execute s mode (run argv why ∷ actions) h).history
  unfolding execute
  execute-run argv why stop go =
      rw (perform-run s mode runs argv why h)
        (after_run argv why (s.status h argv) (stop _) (λ e. rw e go))

  after_verify :
      (mount : Text) (r : Result ErrorKind Text)
      → P (table_read r ∷ h)
      → ((table : Text)
          → r ≡ ok table
          → find_mount (parse_mountinfo table) mount ≡ none
          → P (execute s mode actions (table_read r ∷ h)).history)
      → P
          (after_action
            (verify_result mount r)
            (table_read r ∷ h)
            (execute s mode actions (table_read r ∷ h))).history
  unfolding after_action
  after_verify mount (err e) stop go = stop
  after_verify mount (ok table) stop go =
      elim (Option-cases (find_mount (parse_mountinfo table) mount)) [
        | inl gone ↦ rw gone (go table refl gone)
        | inr (row, found) ↦ rw found stop
      ]

  -- Either the look at the mount table ends the run, or the mount is not in it and the run goes on.
  pub execute-verify_unmounted :
      (mount : Text)
      → ((r : Result ErrorKind Text) → P (table_read r ∷ h))
      → ((table : Text)
          → find_mount (parse_mountinfo table) mount ≡ none
          → P (execute s mode actions (table_read (ok table) ∷ h)).history)
      → P (execute s mode (verify_unmounted mount ∷ actions) h).history
  unfolding execute
  execute-verify_unmounted mount stop go =
      rw (perform-verify_unmounted s mode runs mount h)
        (after_verify mount (s.mountinfo h) (stop _) (λ table e gone. rw e (go table gone)))
