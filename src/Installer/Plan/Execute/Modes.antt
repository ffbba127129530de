-- ===== src/Installer/Plan/Execute/Modes.antt =====
-- What a dry run, a rehearsal and an interrupted run of `execute` leave behind.
use one_drive_hydration.Prelude.{
  ◌≡◌, refl, true, false, List, [], ◌∷◌, arith, Result, ok, err, ◌⊎◌, inl, inr, All,
}
use one_drive_hydration.Text.{codes}
use one_drive_hydration.Text.FilePath.{path_eq}
use one_drive_hydration.Installer.Plan.{
  Options, Action, write_file, symlink, unchanged, append_fstab, remove_file, run, verify_unmounted,
  manual,
}
use one_drive_hydration.Installer.Plan.Execute.{ExecMode, mode_of, History, System, ExecError, pure}
use one_drive_hydration.Installer.Plan.Execute.Perform.{
  LogLine, would_write, would_enable, was_unchanged, would_append, would_remove, would_run,
  would_verify, notice, perform, Report, after_action, execute,
}
use one_drive_hydration.Installer.Plan.Execute.Lines.{IsLineOf, OneLine, OnOk, perform-OneLine}
use one_drive_hydration.Installer.Plan.Execute.Keeps.{is_file_event, rehearsal-Keeps, execute-Keeps}

-- The line that a dry run prints for an action.
abbrev pub narrated : Action → LogLine
narrated (write_file path text owner) = would_write path
narrated (symlink path target owner) = would_enable path target
narrated (unchanged path) = was_unchanged path
narrated (append_fstab path line) = would_append path line
narrated (remove_file path) = would_remove path
narrated (run argv why) = would_run argv why
narrated (verify_unmounted mount) = would_verify mount
narrated (manual text) = notice text

abbrev pub narration : List Action → List LogLine
narration [] = []
narration (a ∷ actions) = narrated a ∷ narration actions

abbrev dry_mode : ExecMode
dry_mode = record { write_files = false; run_commands = false }

perform-dry :
    (s : System) (a : Action) (h : History) → perform s dry_mode a h ≡ (ok (narrated a ∷ []), h)
unfolding perform pure
perform-dry s (write_file path text owner) h = refl
perform-dry s _ h = refl

execute-dry_mode :
    (s : System) (actions : List Action) (h : History)
    → execute s dry_mode actions h ≡ record { log = narration actions; result = ok tt; history = h }
unfolding execute after_action
execute-dry_mode s [] h = refl
execute-dry_mode s (a ∷ actions) h = rw (perform-dry s a h) (rw (execute-dry_mode s actions h))

mode_of-dry : (opts : Options) → opts.dry_run ≡ true → mode_of opts ≡ dry_mode
unfolding mode_of
mode_of-dry opts dry = ground arith

-- A dry run asks nothing of the system, succeeds, and prints one line for every action of the plan.
pub execute-dry :
    (s : System) (opts : Options) (actions : List Action) (h : History)
    → opts.dry_run ≡ true
    → execute s (mode_of opts) actions h
      ≡ record { log = narration actions; result = ok tt; history = h }
execute-dry s opts actions h dry = rw (mode_of-dry opts dry) (execute-dry_mode s actions h)

abbrev pub AllFileEvents : History → Type 0
AllFileEvents = All (λ e. is_file_event e ≡ true)

rehearsal_mode :
    (opts : Options) → path_eq opts.prefix (codes "/") ≡ false → (mode_of opts).run_commands ≡ false
unfolding mode_of
rehearsal_mode opts elsewhere = rw elsewhere

-- A run with a prefix that is not `/` runs no command and does not look at the mount table, whatever
-- the plan asks for: all it asks of the system is about files.
pub execute-rehearsal :
    (s : System) (opts : Options) (actions : List Action)
    → path_eq opts.prefix (codes "/") ≡ false
    → AllFileEvents (execute s (mode_of opts) actions []).history
execute-rehearsal s opts actions elsewhere =
    execute-Keeps s (mode_of opts) AllFileEvents
      (λ a.
        rehearsal-Keeps s AllFileEvents (λ e file h all. (file, all)) (mode_of opts) a
          (rehearsal_mode opts elsewhere))
      actions [] tt

-- A transcript with one line for every action in its order; if the run failed, the lines end before the
-- action that failed.
abbrev pub Accounts : ExecMode → List Action → List LogLine → Result ExecError (Unit {0}) → Type 0
Accounts mode [] log result = (log ≡ []) × (result ≡ ok tt)
Accounts mode (a ∷ actions) log result =
    ((log ≡ []) × (e : ExecError) × (result ≡ err e))
    ⊎ ((line : LogLine) × (rest : List LogLine) × (log ≡ line ∷ rest)
        × IsLineOf mode a line
        × Accounts mode actions rest result)

after_action-Accounts :
    (mode : ExecMode) (a : Action) (actions : List Action) (r : Result ExecError (List LogLine))
    (h : History) (rest : Report)
    → OnOk (OneLine mode a) r
    → Accounts mode actions rest.log rest.result
    → Accounts mode (a ∷ actions) (after_action r h rest).log (after_action r h rest).result
unfolding after_action
after_action-Accounts mode a actions (err e) h rest one accounts = inl (refl, e, refl)
after_action-Accounts mode a actions (ok []) h rest one accounts = cc
after_action-Accounts mode a actions (ok (line ∷ [])) h rest one accounts =
    inr (line, rest.log, refl, one, accounts)
after_action-Accounts mode a actions (ok (line ∷ other ∷ lines)) h rest one accounts = cc

-- In any mode and under any answers of the system, the transcript of a run that succeeds has exactly
-- one line for every action, in the order of the plan, which says what was done or, where the mode
-- does not do it, would be done; a file to remove may be told as absent already. The transcript of a
-- run that fails has such a line for each action before the one that failed, and no other.
pub execute-Accounts :
    (s : System) (mode : ExecMode) (actions : List Action) (h : History)
    → Accounts mode actions (execute s mode actions h).log (execute s mode actions h).result
unfolding execute
execute-Accounts s mode [] h = (refl, refl)
execute-Accounts s mode (a ∷ actions) h =
    after_action-Accounts mode a actions (perform s mode a h).0 (perform s mode a h).1
      (execute s mode actions (perform s mode a h).1) (perform-OneLine s mode a h)
      (execute-Accounts s mode actions (perform s mode a h).1)
