-- ===== src/Installer/Plan/Uninstall/Safety.antt =====
-- The one promise of `uninstall`: nothing is removed, and the helper is not stopped, under a mounted
-- sync root.
use one_drive_hydration.Prelude.{
  ◌≡◌, refl, Bool, true, false, not, ◌&&◌, ◌||◌, some, List, [], ◌∷◌, ◌++◌, arith, any, is_none, ok,
}
use one_drive_hydration.Text.{Text, codes}
use one_drive_hydration.Text.FilePath.{texts_eq, texts_eq_refl}
use one_drive_hydration.Installer.Facts.{Facts}
use one_drive_hydration.Installer.Mounts.{parse_mountinfo, find_mount}
use one_drive_hydration.Installer.Plan.{Options, real, Machine, Action}
use one_drive_hydration.Installer.Plan.Execute.{
  ExecMode, mode_of, Event, removed, ran, table_read, History, System,
}
use one_drive_hydration.Installer.Plan.Execute.Perform.{execute}
use one_drive_hydration.Installer.Plan.Execute.Keeps.{perform-Keeps, execute-Keeps}
use one_drive_hydration.Installer.Plan.Execute.Commands.{execute-run, execute-verify_unmounted}
use one_drive_hydration.Installer.Plan.Uninstall.{uninstall, uninstall_actions, take_down}

abbrev pub is_umount : Text → Event → Bool
is_umount mount (ran argv (ok true)) = texts_eq argv (codes "umount" ∷ mount ∷ [])
is_umount mount _ = false

abbrev pub shows_unmounted : Text → Event → Bool
shows_unmounted mount (table_read (ok table)) = is_none (find_mount (parse_mountinfo table) mount)
shows_unmounted mount _ = false

-- An `umount` of the sync root succeeded, and after it the mount table was read without the root.
abbrev pub taken_down : Text → History → Bool
taken_down mount [] = false
taken_down mount (e ∷ past) =
    (shows_unmounted mount e && any (is_umount mount) past) || taken_down mount past

-- What must not happen while the sync root may be mounted: a removal, and a stop of the helper.
abbrev pub is_hazard : Event → Bool
is_hazard (removed path answer) = true
is_hazard (ran argv answer) =
    texts_eq argv (codes "systemctl" ∷ codes "stop" ∷ codes "hydrationd.service" ∷ [])
is_hazard _ = false

-- Every hazard comes after the sync root was taken down.
abbrev pub Guarded : Text → History → Type 0
Guarded mount [] = Unit
Guarded mount (e ∷ past) =
    ((not (is_hazard e) || taken_down mount past) ≡ true) × Guarded mount past

abbrev Down : Text → History → Type 0
Down mount h = (taken_down mount h ≡ true) × Guarded mount h

Down-cons : (mount : Text) (e : Event) (h : History) → Down mount h → Down mount (e ∷ h)
Down-cons mount e h (down, guarded) = (ground arith, (ground arith, guarded))

-- Once the sync root is down, any actions at all keep the promise.
execute-Guarded :
    (s : System) (mode : ExecMode) (mount : Text) (actions : List Action) (h : History)
    → Down mount h
    → Guarded mount (execute s mode actions h).history
execute-Guarded s mode mount actions h down =
    (execute-Keeps s mode (Down mount) (perform-Keeps s (Down mount) (Down-cons mount) mode) actions
      h down).1

module _ (s : System) (mode : ExecMode) (runs : mode.run_commands ≡ true) (mount : Text) where
  -- The take-down of a mounted root, after a history that did nothing hazardous.
  take_down-Guarded :
      (actions : List Action) (h : History)
      → Guarded mount h
      → Guarded mount (execute s mode (take_down true mount ++ actions) h).history
  unfolding take_down texts_eq
  take_down-Guarded actions h guarded =
      execute-run s mode runs (Guarded mount) _ h (codes "umount" ∷ mount ∷ []) _
        (λ r. (refl, guarded))
        (execute-verify_unmounted s mode runs (Guarded mount) actions _ mount
          (λ r. (refl, (refl, guarded)))
          (λ table gone.
            execute-Guarded s mode mount actions _ (
              rw (gone, texts_eq_refl (codes "umount" ∷ mount ∷ [])) refl,
              (refl, (refl, guarded)),
            )))

unfolded_actions :
    (m : Machine) (facts : Facts) (mounted and_unmount : Bool) (opts : Options)
    {actions : List Action}
    → (uninstall m facts mounted and_unmount opts).actions ≡ some actions
    → actions ≡ uninstall_actions m facts mounted opts
unfolding uninstall
unfolded_actions m facts mounted and_unmount opts h = ground arith

real-runs : (opts : Options) → real opts ≡ true → (mode_of opts).run_commands ≡ true
unfolding mode_of
real-runs opts h = h

-- In a real run of an accepted uninstall plan for a mounted sync root, whatever the system answers
-- and wherever the run stops: before each removal of a file and before each stop of
-- `hydrationd.service` an `umount` of the sync root succeeded, and after that the mount table was
-- read and did not list the sync root.
pub uninstall-Guarded :
    (m : Machine) (facts : Facts) (and_unmount : Bool) (opts : Options) (s : System)
    {actions : List Action}
    → (uninstall m facts true and_unmount opts).actions ≡ some actions
    → real opts ≡ true
    → Guarded facts.mount (execute s (mode_of opts) actions []).history
unfolding uninstall_actions texts_eq
uninstall-Guarded m facts and_unmount opts s planned is_real =
    rw (unfolded_actions m facts true and_unmount opts planned) (
      execute-run s (mode_of opts) (real-runs opts is_real) (Guarded facts.mount) _ [] _ _
        (λ r. (refl, tt))
        (take_down-Guarded s (mode_of opts) (real-runs opts is_real) facts.mount _ _ (refl, tt)))
