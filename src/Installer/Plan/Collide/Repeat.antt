-- ===== src/Installer/Plan/Collide/Repeat.antt =====
-- `collide` on a machine that is as planned.
use one_drive_hydration.Prelude.{
  ◌≡◌, refl, ◌∙◌, ap, Bool, true, false, Option, none, some, List, [], ◌∷◌, All, ok,
}
use one_drive_hydration.Text.{Text, text_eq_refl}
use one_drive_hydration.Text.FilePath.{path_eq, components, texts_eq_refl}
use one_drive_hydration.Installer.Plan.{
  Message, Action, write_file, symlink, unchanged, append_fstab, remove_file, run, verify_unmounted,
  manual, Machine,
}
use one_drive_hydration.Installer.Plan.Collide.{
  already_right, file_verdict, link_verdict, verdict, settle, objection, collide,
}
use one_drive_hydration.Installer.Plan.Collide.Fresh.{settle-already_right, objection-already_right}

-- The file or the link that the action would write stands there already. An append to fstab and a
-- removal always have something left to do.
abbrev pub Present : Machine → Action → Type 0
Present m (write_file path text owner) = m.read_to_string path ≡ ok text
Present m (symlink path target owner) = m.read_link path ≡ ok target
Present m (append_fstab path line) = ⊥
Present m (remove_file path) = ⊥
Present m _ = Unit

-- The action changes a file or a link.
abbrev pub writes : Action → Bool
writes (write_file path text owner) = true
writes (symlink path target owner) = true
writes (append_fstab path line) = true
writes (remove_file path) = true
writes _ = false

path_eq_refl : (p : Text) → path_eq p p ≡ true
unfolding path_eq
path_eq_refl p = texts_eq_refl (components p)

still_none :
    (o : Option Message) (refusals : List Message)
    → o ≡ none
    → refusals ≡ []
    → (elim o [ some message ↦ message ∷ refusals | none ↦ refusals ]) ≡ []
still_none none refusals quiet silent = silent
still_none (some message) refusals quiet silent = cc

module _ (m : Machine) (force : Bool) where
  Settles : Action → Type 0
  Settles a = (objection m force a ≡ none) × (writes (settle m force a) ≡ false)

  already-Settles : (a : Action) → verdict m force a ≡ already_right → Settles a
  unfolding Settles
  already-Settles a h =
      (objection-already_right m force a h, ap writes (settle-already_right m force a h))

  Present-Settles : (a : Action) → Present m a → Settles a
  unfolding Settles settle objection verdict file_verdict link_verdict
  Present-Settles (write_file path text owner) h =
      already-Settles (write_file path text owner)
        (ap (file_verdict force path text) h ∙ rw (text_eq_refl text) refl)
  Present-Settles (symlink path target owner) h =
      already-Settles (symlink path target owner)
        (ap (link_verdict force path target) h ∙ rw (path_eq_refl target) refl)
  Present-Settles (unchanged path) h = (refl, refl)
  Present-Settles (append_fstab path line) h = absurd h
  Present-Settles (remove_file path) h = absurd h
  Present-Settles (run argv why) h = (refl, refl)
  Present-Settles (verify_unmounted mount) h = (refl, refl)
  Present-Settles (manual text) h = (refl, refl)

  -- If every file and link of the actions stands there already as planned, and none of them appends to
  -- fstab or removes a file, then nothing is refused, forced or not, and no action that is left writes,
  -- links, appends or removes anything.
  pub collide-Present :
      (actions : List Action)
      → All (Present m) actions
      → ((collide m force actions).1 ≡ []) × All (λ a. writes a ≡ false) (collide m force actions).0
  unfolding collide Settles
  collide-Present [] h = (refl, tt)
  collide-Present (a ∷ actions) (here, h) =
      let (quiet, idle) = Present-Settles a here in
      let (silent, still) = collide-Present actions h in
      (still_none _ _ quiet silent, (idle, still))
