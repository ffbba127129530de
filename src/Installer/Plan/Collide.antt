-- ===== src/Installer/Plan/Collide.antt =====
-- `collide` of crates/installer/src/plan.rs: rewrite nothing that is right, refuse what
-- can be read there and differs. What cannot be read as UTF-8 text, or as a link, is kept as an action
-- and not refused, as in the source.
pub mod Fresh
pub mod Repeat
pub mod Agrees
use one_drive_hydration.Prelude.{
  Bool, Option, none, some, List, [], ◌∷◌, if◌then◌else◌, Result, ok, err, ErrorKind,
}
use one_drive_hydration.Text.{Text, text_eq}
use one_drive_hydration.Text.FilePath.{path_eq}
use one_drive_hydration.Installer.Plan.{Message, Machine, Action, write_file, symlink, unchanged}

-- What becomes of one action: it is kept, replaced, or kept with a refusal.
pub data Verdict : Type 0 where
  keep already_right : Verdict
  conflict : Message → Verdict

file_verdict : Bool → Text → Text → Result ErrorKind Text → Verdict
file_verdict force path text (err e) = keep
file_verdict force path text (ok existing) =
    if text_eq existing text
    then already_right
    else if force
    then keep
    else conflict (Message.file_differs path)

link_verdict : Bool → Text → Text → Result ErrorKind Text → Verdict
link_verdict force path target (err e) = keep
link_verdict force path target (ok existing) =
    if path_eq existing target
    then already_right
    else if force
    then keep
    else conflict (Message.link_differs path existing target)

unfoldable pub verdict : Machine → Bool → Action → Verdict
unfolding file_verdict link_verdict
verdict m force (write_file path text owner) = file_verdict force path text (m.read_to_string path)
verdict m force (symlink path target owner) = link_verdict force path target (m.read_link path)
verdict m force _ = keep

abbrev path_of : Action → Text
path_of (write_file path text owner) = path
path_of (symlink path target owner) = path
path_of _ = []

unfoldable pub settle : Machine → Bool → Action → Action
settle m force a = elim (verdict m force a) [ already_right ↦ unchanged (path_of a) | _ ↦ a ]

unfoldable pub objection : Machine → Bool → Action → Option Message
objection m force a = elim (verdict m force a) [ conflict message ↦ some message | _ ↦ none ]

-- The rewritten actions and the refusals.
unfoldable pub collide : Machine → Bool → List Action → List Action × List Message
collide m force [] = ([], [])
collide m force (a ∷ actions) =
    let (settled, refusals) = collide m force actions in
    (
      settle m force a ∷ settled,
      elim (objection m force a) [ some message ↦ message ∷ refusals | none ↦ refusals ],
    )
