-- ===== src/Installer/Plan/Execute/Lines.antt =====
-- The lines that one action of `execute` adds to the transcript.
use one_drive_hydration.Prelude.{
  String, ◌≡◌, refl, Bool, true, false, Option, none, some, List, [], ◌∷◌, if◌then◌else◌, ◌⊎◌, inl,
  inr, Result, ok, err, ErrorKind, not_found,
}
use one_drive_hydration.Text.{Text}
use one_drive_hydration.Installer.Mounts.{MountRow, parse_mountinfo, find_mount}
use one_drive_hydration.Installer.Plan.{
  Owner, Action, write_file, symlink, unchanged, append_fstab, remove_file, run, verify_unmounted,
  manual,
}
use one_drive_hydration.Installer.Plan.Execute.{
  ExecMode, History, System, ExecError, Exec, pure, raise, continue, ◌>>=◌,
}
use one_drive_hydration.Installer.Plan.Execute.Perform.{
  LogLine, wrote_file, would_write, enabled, would_enable, was_unchanged, appended_to, would_append,
  removed_file, already_absent, would_remove, ran_command, would_run, verified_unmounted,
  would_verify, notice, perform, perform_write, perform_symlink, perform_append, perform_remove,
  perform_run, perform_verify, removal_line, verification,
}

-- A line of the transcript tells of its action what was done, or what would have been.
abbrev pub IsLineOf : ExecMode → Action → LogLine → Type 0
IsLineOf mode (write_file path text owner) line =
    line ≡ (if mode.write_files then wrote_file path else would_write path)
IsLineOf mode (symlink path target owner) line =
    line ≡ (if mode.write_files then enabled path target else would_enable path target)
IsLineOf mode (unchanged path) line = line ≡ was_unchanged path
IsLineOf mode (append_fstab path text) line =
    line ≡ (if mode.write_files then appended_to path text else would_append path text)
IsLineOf mode (remove_file path) line =
    (line ≡ (if mode.write_files then removed_file path else would_remove path))
    ⊎ (line ≡ (if mode.write_files then already_absent path else would_remove path))
IsLineOf mode (run argv why) line =
    line ≡ (if mode.run_commands then ran_command argv why else would_run argv why)
IsLineOf mode (verify_unmounted mount) line =
    line ≡ (if mode.run_commands then verified_unmounted mount else would_verify mount)
IsLineOf mode (manual text) line = line ≡ notice text

-- What holds of the value of a computation that does not fail.
abbrev pub OnOk : {A : Type 0} → (A → Type 0) → Result ExecError A → Type 0
OnOk Q (ok a) = Q a
OnOk Q (err e) = Unit

record Yields {A : Type 0} (Q : A → Type 0) (m : Exec A) : Type 0 where
  at_result : (h : History) → OnOk Q (m h).0

module _ {A : Type 0} (Q : A → Type 0) where
  Yields-pure : (a : A) → Q a → Yields Q (pure a)
  unfolding pure
  Yields-pure a q = record { at_result = λ h. q }

  Yields-raise : (e : ExecError) → Yields Q (raise e)
  unfolding raise
  Yields-raise e = record { at_result = λ h. tt }

module _ {A B : Type 0} (Q : B → Type 0) where
  goes_on :
      (r : Result ExecError A) (f : A → Exec B) (h : History)
      → ((a : A) → Yields Q (f a))
      → OnOk Q (continue r f h).0
  unfolding continue
  goes_on (ok a) f h yf = (yf a).at_result h
  goes_on (err e) f h yf = tt

  Yields-bind : (m : Exec A) (f : A → Exec B) → ((a : A) → Yields Q (f a)) → Yields Q (m >>= f)
  unfolding ◌>>=◌
  Yields-bind m f yf = record { at_result = λ h. goes_on (m h).0 f (m h).1 yf }

-- Exactly one line, of the action.
abbrev pub OneLine : ExecMode → Action → List LogLine → Type 0
OneLine mode a [] = ◌≡◌ {A = Bool} true false
OneLine mode a (line ∷ []) = IsLineOf mode a line
OneLine mode a (line ∷ other ∷ lines) = ◌≡◌ {A = Bool} true false

module _ (s : System) where
  -- Q stands for what is said of the one line at the end.
  perform_write-Yields :
      (Q : List LogLine → Type 0) (path text : Text) (owner : Owner)
      → Q (wrote_file path ∷ [])
      → Yields Q (perform_write s path text owner)
  unfolding perform_write
  perform_write-Yields Q path text owner q =
      Yields-bind Q _ _
        λ _. Yields-bind Q _ _ λ _. Yields-bind Q _ _ λ _. Yields-bind Q _ _ λ _. Yields-pure Q _ q

  perform_symlink-Yields :
      (Q : List LogLine → Type 0) (path target : Text) (owner : Owner)
      → Q (enabled path target ∷ [])
      → Yields Q (perform_symlink s path target owner)
  unfolding perform_symlink
  perform_symlink-Yields Q path target owner q =
      Yields-bind Q _ _
        λ _. Yields-bind Q _ _ λ _. Yields-bind Q _ _ λ _. Yields-bind Q _ _ λ _. Yields-pure Q _ q

  perform_append-Yields :
      (Q : List LogLine → Type 0) (path line : Text)
      → Q (appended_to path line ∷ [])
      → Yields Q (perform_append s path line)
  unfolding perform_append
  perform_append-Yields Q path line q =
      Yields-bind Q _ _ λ _. Yields-bind Q _ _ λ _. Yields-bind Q _ _ λ _. Yields-pure Q _ q

  removal_line-Yields :
      (Q : List LogLine → Type 0) (path : Text) (answer : Result ErrorKind (Unit {0}))
      → Q (removed_file path ∷ [])
      → Q (already_absent path ∷ [])
      → Yields Q (removal_line s path answer)
  unfolding removal_line
  removal_line-Yields Q path (ok done) removed absent = Yields-pure Q _ removed
  removal_line-Yields Q path (err not_found) removed absent = Yields-pure Q _ absent
  removal_line-Yields Q path (err _) removed absent = Yields-raise Q _

  perform_remove-Yields :
      (Q : List LogLine → Type 0) (path : Text)
      → Q (removed_file path ∷ [])
      → Q (already_absent path ∷ [])
      → Yields Q (perform_remove s path)
  unfolding perform_remove
  perform_remove-Yields Q path removed absent =
      Yields-bind Q _ _ λ answer. removal_line-Yields Q path answer removed absent

  either_way :
      (Q : List LogLine → Type 0) (b : Bool) (m n : Exec (List LogLine))
      → (b ≡ true → Yields Q m)
      → (b ≡ false → Yields Q n)
      → Yields Q (if b then m else n)
  either_way Q true m n ym yn = ym refl
  either_way Q false m n ym yn = yn refl

  perform_run-Yields :
      (Q : List LogLine → Type 0) (argv : List Text) (why : String)
      → Q (ran_command argv why ∷ [])
      → Yields Q (perform_run s argv why)
  unfolding perform_run
  perform_run-Yields Q argv why q =
      Yields-bind Q _ _
        λ success. either_way Q success _ _ (λ e. Yields-pure Q _ q) (λ e. Yields-raise Q _)

  verification-Yields :
      (Q : List LogLine → Type 0) (mount : Text) (row : Option MountRow)
      → Q (verified_unmounted mount ∷ [])
      → Yields Q (verification s mount row)
  unfolding verification
  verification-Yields Q mount (some row) q = Yields-raise Q _
  verification-Yields Q mount none q = Yields-pure Q _ q

  perform_verify-Yields :
      (Q : List LogLine → Type 0) (mount : Text)
      → Q (verified_unmounted mount ∷ [])
      → Yields Q (perform_verify s mount)
  unfolding perform_verify
  perform_verify-Yields Q mount q =
      Yields-bind Q _ _
        λ table. verification-Yields Q mount (find_mount (parse_mountinfo table) mount) q

  -- A branch by the mode, whose line is chosen by the mode too.
  by_mode :
      (b : Bool) (m n : Exec (List LogLine)) (x y : LogLine)
      → ((Q : List LogLine → Type 0) → Q (x ∷ []) → Yields Q m)
      → ((Q : List LogLine → Type 0) → Q (y ∷ []) → Yields Q n)
      → (Q : List LogLine → Type 0) → Q ((if b then x else y) ∷ [])
      → Yields Q (if b then m else n)
  by_mode true m n x y ym yn Q q = ym Q q
  by_mode false m n x y ym yn Q q = yn Q q

  perform-Yields : (mode : ExecMode) (a : Action) → Yields (OneLine mode a) (perform s mode a)
  unfolding perform
  perform-Yields mode (write_file path text owner) =
      by_mode mode.write_files _ _ (wrote_file path) (would_write path)
        (λ Q. perform_write-Yields Q path text owner) (λ Q. Yields-pure Q _) _ refl
  perform-Yields mode (symlink path target owner) =
      by_mode mode.write_files _ _ (enabled path target) (would_enable path target)
        (λ Q. perform_symlink-Yields Q path target owner) (λ Q. Yields-pure Q _) _ refl
  perform-Yields mode (unchanged path) = Yields-pure _ _ refl
  perform-Yields mode (append_fstab path line) =
      by_mode mode.write_files _ _ (appended_to path line) (would_append path line)
        (λ Q. perform_append-Yields Q path line) (λ Q. Yields-pure Q _) _ refl
  perform-Yields mode (remove_file path) =
      either_way (OneLine mode (remove_file path)) mode.write_files (perform_remove s path)
        (pure (would_remove path ∷ []))
        (λ e.
          perform_remove-Yields (OneLine mode (remove_file path)) path (rw e (inl refl))
            (rw e (inr refl)))
        (λ e. Yields-pure (OneLine mode (remove_file path)) _ (rw e (inl refl)))
  perform-Yields mode (run argv why) =
      by_mode mode.run_commands _ _ (ran_command argv why) (would_run argv why)
        (λ Q. perform_run-Yields Q argv why) (λ Q. Yields-pure Q _) _ refl
  perform-Yields mode (verify_unmounted mount) =
      by_mode mode.run_commands _ _ (verified_unmounted mount) (would_verify mount)
        (λ Q. perform_verify-Yields Q mount) (λ Q. Yields-pure Q _) _ refl
  perform-Yields mode (manual text) = Yields-pure _ _ refl

  -- An action that does not fail adds exactly one line, and it tells of that action.
  pub perform-OneLine :
      (mode : ExecMode) (a : Action) (h : History) → OnOk (OneLine mode a) (perform s mode a h).0
  perform-OneLine mode a h = (perform-Yields mode a).at_result h
