-- ===== src/Installer/Plan/Execute/Keeps.antt =====
-- Predicates on the history that the actions of `execute` keep.
use one_drive_hydration.Prelude.{
  String, ◌≡◌, refl, Bool, true, false, Option, none, some, List, [], ◌∷◌, reverse, if◌then◌else◌,
  Result, ok, err, ErrorKind, not_found,
}
use one_drive_hydration.Text.{Text}
use one_drive_hydration.Installer.Mounts.{MountRow, parse_mountinfo, find_mount}
use one_drive_hydration.Installer.Plan.{
  Owner, Action, write_file, symlink, unchanged, append_fstab, remove_file, run, verify_unmounted,
  manual,
}
use one_drive_hydration.Installer.Plan.Execute.{
  ExecMode, Event, created_dir, chowned, wrote, renamed, linked, opened, appended, removed, ran,
  table_read, History, System, ExecError, Exec, pure, raise, request, observe, continue, ◌>>=◌,
}
use one_drive_hydration.Installer.Plan.Execute.Perform.{
  LogLine, chown_impl, create_each, create_dirs_owned, perform_write, perform_symlink,
  perform_append, perform_remove, perform_run, perform_verify, removal_line, verification,
  after_action, replace_link, attempt, perform, execute,
}

pub record Keeps {A : Type 0} (P : History → Type 0) (m : Exec A) : Type 0 where
  pub at_history : (h : History) → P h → P (m h).1

-- The events of `request`s about files; the others are commands and reads of the mount table.
abbrev pub is_file_event : Event → Bool
is_file_event (ran argv answer) = false
is_file_event (table_read answer) = false
is_file_event _ = true

module _ {A : Type 0} where
  pushed :
      (P : History → Type 0) (wrap : ErrorKind → ExecError) (r : Result ErrorKind A)
      (event : Result ErrorKind A → Event) (h : History)
      → ((answer : Result ErrorKind A) → P (event answer ∷ h))
      → P (request wrap (λ _. r) event h).1
  unfolding request
  pushed P wrap (ok a) event h all = all (ok a)
  pushed P wrap (err e) event h all = all (err e)

module _ {P : History → Type 0} {A : Type 0} where
  Keeps-pure : (a : A) → Keeps P (pure a)
  unfolding pure
  Keeps-pure a = record { at_history = λ h p. p }

  Keeps-raise : (e : ExecError) → Keeps P (raise {A = A} e)
  unfolding raise
  Keeps-raise e = record { at_history = λ h p. p }

  Keeps-observe : (answer : History → A) → Keeps P (observe answer)
  unfolding observe
  Keeps-observe answer = record { at_history = λ h p. p }

  Keeps-if : (b : Bool) (m n : Exec A) → Keeps P m → Keeps P n → Keeps P (if b then m else n)
  Keeps-if true m n km kn = km
  Keeps-if false m n km kn = kn

  pub Keeps-request :
      (wrap : ErrorKind → ExecError) (answer : History → Result ErrorKind A)
      (event : Result ErrorKind A → Event)
      → ((r : Result ErrorKind A) (h : History) → P h → P (event r ∷ h))
      → Keeps P (request wrap answer event)
  unfolding request
  Keeps-request wrap answer event grows = record {
    at_history = λ h p. pushed P wrap (answer h) event h (λ r. grows r h p);
  }

module _ {P : History → Type 0} {A B : Type 0} where
  kept_on :
      (r : Result ExecError A) (f : A → Exec B) (h : History)
      → ((a : A) → Keeps P (f a))
      → P h
      → P (continue r f h).1
  unfolding continue
  kept_on (ok a) f h kf p = (kf a).at_history h p
  kept_on (err e) f h kf p = p

  pub Keeps-bind :
      (m : Exec A) (f : A → Exec B) → Keeps P m → ((a : A) → Keeps P (f a)) → Keeps P (m >>= f)
  unfolding ◌>>=◌
  Keeps-bind m f km kf = record {
    at_history = λ h p. kept_on (m h).0 f (m h).1 kf (km.at_history h p);
  }

ruleset keeps_rules = (Keeps-pure, Keeps-raise, Keeps-observe, Keeps-if, Keeps-bind)

module _ (s : System) (P : History → Type 0)
    (grows : (e : Event) → is_file_event e ≡ true → (h : History) → P h → P (e ∷ h)) where
  chown_impl-Keeps :
      (wrap : ErrorKind → ExecError) (path : Text) (owner : Owner)
      → Keeps P (chown_impl s wrap path owner)
  unfolding chown_impl
  chown_impl-Keeps wrap path none = Keeps-pure tt
  chown_impl-Keeps wrap path (some owner) = Keeps-if _ _ _ (Keeps-pure tt) (
      Keeps-if _ _ _ (Keeps-raise _)
        (Keeps-request wrap _ _ (λ r. grows (chowned path owner r) refl)))

  create_each-Keeps :
      (wrap : ErrorKind → ExecError) (owner : Owner) (dirs : List Text)
      → Keeps P (create_each s wrap owner dirs)
  unfolding create_each
  create_each-Keeps wrap owner [] = Keeps-pure tt
  create_each-Keeps wrap owner (dir ∷ dirs) =
      Keeps-bind _ _ (Keeps-request wrap _ _ (λ r. grows (created_dir dir r) refl))
        λ _. Keeps-bind _ _ (chown_impl-Keeps wrap dir owner) λ _. create_each-Keeps wrap owner dirs

  create_dirs_owned-Keeps :
      (wrap : ErrorKind → ExecError) (dir : Text) (owner : Owner)
      → Keeps P (create_dirs_owned s wrap dir owner)
  unfolding create_dirs_owned
  create_dirs_owned-Keeps wrap dir owner =
      Keeps-bind _ _ (Keeps-observe _) λ missing. create_each-Keeps wrap owner (reverse missing)

  perform_write-Keeps :
      (path text : Text) (owner : Owner) → Keeps P (perform_write s path text owner)
  unfolding perform_write
  perform_write-Keeps path text owner = Keeps-bind _ _ (create_dirs_owned-Keeps _ _ owner) λ _.
      Keeps-bind _ _ (Keeps-request _ _ _ (λ r. grows (wrote _ text r) refl)) λ _.
        Keeps-bind _ _ (chown_impl-Keeps _ _ owner) λ _.
          Keeps-bind _ _ (Keeps-request _ _ _ (λ r. grows (renamed _ path r) refl))
            λ _. Keeps-pure _

  replace_link-Keeps :
      (path target : Text) (existing : Result ErrorKind Text)
      → Keeps P (replace_link s path target existing)
  unfolding replace_link
  replace_link-Keeps path target (err e) =
      Keeps-request _ _ _ (λ r. grows (linked path target r) refl)
  replace_link-Keeps path target (ok existing) = Keeps-if _ _ _ (Keeps-pure tt) (
      Keeps-bind _ _ (Keeps-request _ _ _ (λ r. grows (removed path r) refl))
        λ _. Keeps-request _ _ _ (λ r. grows (linked path target r) refl))

  perform_symlink-Keeps :
      (path target : Text) (owner : Owner) → Keeps P (perform_symlink s path target owner)
  unfolding perform_symlink
  perform_symlink-Keeps path target owner = Keeps-bind _ _ (create_dirs_owned-Keeps _ _ owner) λ _.
      Keeps-bind _ _ (Keeps-observe _) λ existing.
        Keeps-bind _ _ (replace_link-Keeps path target existing)
          λ _. Keeps-bind _ _ (chown_impl-Keeps _ path owner) λ _. Keeps-pure _

  perform_append-Keeps : (path line : Text) → Keeps P (perform_append s path line)
  unfolding perform_append
  perform_append-Keeps path line = Keeps-bind _ _ (create_dirs_owned-Keeps _ _ none) λ _.
      Keeps-bind _ _ (Keeps-request _ _ _ (λ r. grows (opened path r) refl)) λ _.
        Keeps-bind _ _ (Keeps-request _ _ _ (λ r. grows (appended path _ r) refl)) λ _. Keeps-pure _

  removal_line-Keeps :
      (path : Text) (answer : Result ErrorKind (Unit {0})) → Keeps P (removal_line s path answer)
  unfolding removal_line
  removal_line-Keeps path (ok done) = Keeps-pure _
  removal_line-Keeps path (err not_found) = Keeps-pure _
  removal_line-Keeps path (err _) = Keeps-raise _

  perform_remove-Keeps : (path : Text) → Keeps P (perform_remove s path)
  unfolding perform_remove
  perform_remove-Keeps path =
      Keeps-bind _ _ (attempt-Keeps _ _ (λ r. grows (removed path r) refl))
        (removal_line-Keeps path)
    where
      attempt-Keeps :
          (answer : History → Result ErrorKind (Unit {0}))
          (event : Result ErrorKind (Unit {0}) → Event)
          → ((r : Result ErrorKind (Unit {0})) (h : History) → P h → P (event r ∷ h))
          → Keeps P (attempt s answer event)
      attempt-Keeps answer event keep = record { at_history = λ h p. keep (answer h) h p }

  -- What a mode without commands does keeps whatever the requests about files keep.
  pub rehearsal-Keeps :
      (mode : ExecMode) (a : Action) → mode.run_commands ≡ false → Keeps P (perform s mode a)
  unfolding perform
  rehearsal-Keeps mode (write_file path text owner) e =
      Keeps-if _ _ _ (perform_write-Keeps path text owner) (Keeps-pure _)
  rehearsal-Keeps mode (symlink path target owner) e =
      Keeps-if _ _ _ (perform_symlink-Keeps path target owner) (Keeps-pure _)
  rehearsal-Keeps mode (unchanged path) e = Keeps-pure _
  rehearsal-Keeps mode (append_fstab path line) e =
      Keeps-if _ _ _ (perform_append-Keeps path line) (Keeps-pure _)
  rehearsal-Keeps mode (remove_file path) e =
      Keeps-if _ _ _ (perform_remove-Keeps path) (Keeps-pure _)
  rehearsal-Keeps mode (run argv why) e = rw e (Keeps-pure _)
  rehearsal-Keeps mode (verify_unmounted mount) e = rw e (Keeps-pure _)
  rehearsal-Keeps mode (manual text) e = Keeps-pure _

module _ (s : System) (P : History → Type 0)
    (grows : (e : Event) (h : History) → P h → P (e ∷ h)) where
  file_grows : (e : Event) → is_file_event e ≡ true → (h : History) → P h → P (e ∷ h)
  file_grows e file = grows e

  perform_run-Keeps : (argv : List Text) (why : String) → Keeps P (perform_run s argv why)
  unfolding perform_run
  perform_run-Keeps argv why =
      Keeps-bind _ _ (Keeps-request _ _ _ (λ r. grows (ran argv r)))
        λ success. Keeps-if success _ _ (Keeps-pure _) (Keeps-raise _)

  verification-Keeps : (mount : Text) (row : Option MountRow) → Keeps P (verification s mount row)
  unfolding verification
  verification-Keeps mount (some row) = Keeps-raise _
  verification-Keeps mount none = Keeps-pure _

  perform_verify-Keeps : (mount : Text) → Keeps P (perform_verify s mount)
  unfolding perform_verify
  perform_verify-Keeps mount =
      Keeps-bind _ _ (Keeps-request _ _ _ (λ r. grows (table_read r)))
        λ table. verification-Keeps mount (find_mount (parse_mountinfo table) mount)

  -- What every event keeps, every action keeps.
  pub perform-Keeps : (mode : ExecMode) (a : Action) → Keeps P (perform s mode a)
  unfolding perform
  perform-Keeps mode (run argv why) = Keeps-if _ _ _ (perform_run-Keeps argv why) (Keeps-pure _)
  perform-Keeps mode (verify_unmounted mount) =
      Keeps-if _ _ _ (perform_verify-Keeps mount) (Keeps-pure _)
  perform-Keeps mode (write_file path text owner) =
      Keeps-if _ _ _ (perform_write-Keeps s P file_grows path text owner) (Keeps-pure _)
  perform-Keeps mode (symlink path target owner) =
      Keeps-if _ _ _ (perform_symlink-Keeps s P file_grows path target owner) (Keeps-pure _)
  perform-Keeps mode (unchanged path) = Keeps-pure _
  perform-Keeps mode (append_fstab path line) =
      Keeps-if _ _ _ (perform_append-Keeps s P file_grows path line) (Keeps-pure _)
  perform-Keeps mode (remove_file path) =
      Keeps-if _ _ _ (perform_remove-Keeps s P file_grows path) (Keeps-pure _)
  perform-Keeps mode (manual text) = Keeps-pure _

module _ (s : System) (mode : ExecMode) (P : History → Type 0)
    (step : (a : Action) → Keeps P (perform s mode a)) where
  reported :
      (actions : List Action) (r : Result ExecError (List LogLine)) (h : History)
      → P h
      → (P h → P (execute s mode actions h).history)
      → P (after_action r h (execute s mode actions h)).history
  unfolding after_action
  reported actions (ok line) h p rest = rest p
  reported actions (err e) h p rest = p

  -- So does the loop.
  pub execute-Keeps :
      (actions : List Action) (h : History) → P h → P (execute s mode actions h).history
  unfolding execute
  execute-Keeps [] h p = p
  execute-Keeps (a ∷ actions) h p =
      reported actions (perform s mode a h).0 (perform s mode a h).1 ((step a).at_history h p)
        (execute-Keeps actions (perform s mode a h).1)
