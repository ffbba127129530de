-- ===== src/Installer/Plan/Collide/Agrees.antt =====
-- When `collide` refuses nothing, by what stands on the machine.
use one_drive_hydration.Prelude.{
  ◌≡◌, refl, ◌∙◌, ap, Bool, true, ◌&&◌, ◌||◌, Option, none, some, List, [], ◌∷◌, all, is_empty,
  is_none, Result, ok, err, arith, ErrorKind,
}
use one_drive_hydration.Text.{Text, text_eq}
use one_drive_hydration.Text.FilePath.{path_eq}
use one_drive_hydration.Installer.Plan.{
  Message, Action, write_file, symlink, unchanged, append_fstab, remove_file, run, verify_unmounted,
  manual, Machine,
}
use one_drive_hydration.Installer.Plan.Collide.{
  Verdict, conflict, file_verdict, link_verdict, verdict, objection, collide,
}

-- A file with other text, or a link with another target, is in the way unless forced; what cannot be
-- read as a text, or as a link, is not.
abbrev pub agrees : Machine → Bool → Action → Bool
agrees m force (write_file path text owner) = elim (m.read_to_string path) [
  | ok existing ↦ force || text_eq existing text
  | err e ↦ true
]
agrees m force (symlink path target owner) = elim (m.read_link path) [
  | ok existing ↦ force || path_eq existing target
  | err e ↦ true
]
agrees m force _ = true

objection_of : Verdict → Option Message
objection_of v = elim v [ conflict message ↦ some message | _ ↦ none ]

file_verdict-objection :
    (force : Bool) (path text : Text) (r : Result ErrorKind Text)
    → is_none (objection_of (file_verdict force path text r))
      ≡ (elim r [ ok existing ↦ force || text_eq existing text | err e ↦ true ])
unfolding file_verdict objection_of
file_verdict-objection force path text (err e) = refl
file_verdict-objection force path text (ok existing) = ground arith

link_verdict-objection :
    (force : Bool) (path target : Text) (r : Result ErrorKind Text)
    → is_none (objection_of (link_verdict force path target r))
      ≡ (elim r [ ok existing ↦ force || path_eq existing target | err e ↦ true ])
unfolding link_verdict objection_of
link_verdict-objection force path target (err e) = refl
link_verdict-objection force path target (ok existing) = ground arith

is_empty-refusals :
    (o : Option Message) (refusals : List Message)
    → is_empty (elim o [ some message ↦ message ∷ refusals | none ↦ refusals ])
      ≡ (is_none o && is_empty refusals)
is_empty-refusals none refusals = refl
is_empty-refusals (some message) refusals = refl

module _ (m : Machine) (force : Bool) where
  objection-agrees : (a : Action) → is_none (objection m force a) ≡ agrees m force a
  unfolding objection verdict objection_of
  objection-agrees (write_file path text owner) =
      file_verdict-objection force path text (m.read_to_string path)
  objection-agrees (symlink path target owner) =
      link_verdict-objection force path target (m.read_link path)
  objection-agrees (unchanged path) = refl
  objection-agrees (append_fstab path line) = refl
  objection-agrees (remove_file path) = refl
  objection-agrees (run argv why) = refl
  objection-agrees (verify_unmounted mount) = refl
  objection-agrees (manual text) = refl

  -- Nothing is refused exactly if nothing is in the way.
  pub is_empty-collide :
      (actions : List Action) → is_empty (collide m force actions).1 ≡ all (agrees m force) actions
  unfolding collide
  is_empty-collide [] = refl
  is_empty-collide (a ∷ actions) =
      is_empty-refusals (objection m force a) (collide m force actions).1
      ∙ ap (λ b. b && is_empty (collide m force actions).1) (objection-agrees a)
      ∙ ap (λ b. agrees m force a && b) (is_empty-collide actions)
