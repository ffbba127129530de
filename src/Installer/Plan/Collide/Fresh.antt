-- ===== src/Installer/Plan/Collide/Fresh.antt =====
-- What `collide` leaves to be written.
use one_drive_hydration.Prelude.{
  ◌≡◌, refl, sym, ap, subst, Bool, true, false, Option, none, some, List, [], ◌∷◌, All, Bool-cases,
  inl, inr, ◌⊎◌, is_empty, Result, ok, err, is_ok, arith, ErrorKind,
}
use one_drive_hydration.Text.{Text, text_eq}
use one_drive_hydration.Text.FilePath.{path_eq}
use one_drive_hydration.Installer.Plan.{
  Message, Action, write_file, symlink, unchanged, append_fstab, remove_file, run, verify_unmounted,
  manual, Machine, Owner,
}
use one_drive_hydration.Installer.Plan.Collide.{
  keep, already_right, conflict, file_verdict, link_verdict, path_of, verdict, settle, objection,
  collide,
}

-- Nothing that can be read stands where the action writes a file or makes a link, and any other action
-- is as `allowed` says.
abbrev pub Fresh : (Action → Type 0) → Machine → Action → Type 0
Fresh allowed m (write_file path text owner) = is_ok (m.read_to_string path) ≡ false
Fresh allowed m (symlink path target owner) = is_ok (m.read_link path) ≡ false
Fresh allowed m (unchanged path) = Unit
Fresh allowed m a = allowed a

module _ (m : Machine) (force : Bool) (a : Action) where
  settle-keep : verdict m force a ≡ keep → settle m force a ≡ a
  unfolding settle
  settle-keep h = ground arith

  pub settle-already_right :
      verdict m force a ≡ already_right → settle m force a ≡ unchanged (path_of a)
  unfolding settle
  settle-already_right h = ground arith

  objection-conflict :
      {message : Message}
      → verdict m force a ≡ conflict message
      → objection m force a ≡ some message
  unfolding objection
  objection-conflict h = ground arith

  pub objection-already_right : verdict m force a ≡ already_right → objection m force a ≡ none
  unfolding objection
  objection-already_right h = ground arith

-- Without `force`, what is read is right or in conflict.
file_verdict-false :
    (path text existing : Text)
    → (file_verdict false path text (ok existing) ≡ already_right)
      ⊎ (file_verdict false path text (ok existing) ≡ conflict (Message.file_differs path))
unfolding file_verdict
file_verdict-false path text existing = elim (Bool-cases (text_eq existing text)) [
  | inl e ↦ inl (rw e refl)
  | inr e ↦ inr (rw e refl)
]

link_verdict-false :
    (path target existing : Text)
    → (link_verdict false path target (ok existing) ≡ already_right)
      ⊎ (link_verdict false path target (ok existing)
          ≡ conflict (Message.link_differs path existing target))
unfolding link_verdict
link_verdict-false path target existing = elim (Bool-cases (path_eq existing target)) [
  | inl e ↦ inl (rw e refl)
  | inr e ↦ inr (rw e refl)
]

module _ (allowed : Action → Type 0) (m : Machine) where
  -- An action that is not objected to and is right already writes nothing, and one in conflict is
  -- objected to.
  settled_Fresh :
      (a : Action) {message : Message}
      → (verdict m false a ≡ already_right) ⊎ (verdict m false a ≡ conflict message)
      → objection m false a ≡ none
      → Fresh allowed m (settle m false a)
  settled_Fresh a (inl e) h = subst (Fresh allowed m) (sym (settle-already_right m false a e)) tt
  settled_Fresh a (inr e) h = cc (objection-conflict m false a e)

  file_Fresh :
      (path text : Text) (owner : Owner) (r : Result ErrorKind Text)
      → m.read_to_string path ≡ r
      → objection m false (write_file path text owner) ≡ none
      → Fresh allowed m (settle m false (write_file path text owner))
  unfolding verdict file_verdict
  file_Fresh path text owner (err e) at h =
      subst (Fresh allowed m)
        (sym
          (settle-keep m false (write_file path text owner) (ap (file_verdict false path text) at)))
        (ap is_ok at)
  file_Fresh path text owner (ok existing) at h =
      settled_Fresh (write_file path text owner)
        (subst
          (λ r.
            (file_verdict false path text r ≡ already_right)
            ⊎ (file_verdict false path text r ≡ conflict (Message.file_differs path)))
          (sym at) (file_verdict-false path text existing))
        h

  link_Fresh :
      (path target : Text) (owner : Owner) (r : Result ErrorKind Text)
      → m.read_link path ≡ r
      → objection m false (symlink path target owner) ≡ none
      → Fresh allowed m (settle m false (symlink path target owner))
  unfolding verdict link_verdict
  link_Fresh path target owner (err e) at h =
      subst (Fresh allowed m)
        (sym (
          settle-keep m false (symlink path target owner) (ap (link_verdict false path target) at)))
        (ap is_ok at)
  link_Fresh path target owner (ok existing) at h =
      settled_Fresh (symlink path target owner)
        (subst
          (λ r.
            (link_verdict false path target r ≡ already_right)
            ⊎ (link_verdict false path target r
                ≡ conflict (Message.link_differs path existing target)))
          (sym at) (link_verdict-false path target existing))
        h

  settle-Fresh :
      (a : Action) → allowed a → objection m false a ≡ none → Fresh allowed m (settle m false a)
  unfolding settle verdict
  settle-Fresh (write_file path text owner) good h =
      file_Fresh path text owner (m.read_to_string path) refl h
  settle-Fresh (symlink path target owner) good h =
      link_Fresh path target owner (m.read_link path) refl h
  settle-Fresh (unchanged path) good h = tt
  settle-Fresh (append_fstab path line) good h = good
  settle-Fresh (remove_file path) good h = good
  settle-Fresh (run argv why) good h = good
  settle-Fresh (verify_unmounted mount) good h = good
  settle-Fresh (manual text) good h = good

  no_objection :
      (o : Option Message) (refusals : List Message)
      → is_empty (elim o [ some message ↦ message ∷ refusals | none ↦ refusals ]) ≡ true
      → (o ≡ none) × (is_empty refusals ≡ true)
  no_objection none refusals h = (refl, h)
  no_objection (some message) refusals h = cc

  -- Without `force` and without a refusal, only what cannot be read is written.
  pub collide-Fresh :
      (actions : List Action)
      → All allowed actions
      → is_empty (collide m false actions).1 ≡ true
      → All (Fresh allowed m) (collide m false actions).0
  unfolding collide
  collide-Fresh [] good h = tt
  collide-Fresh (a ∷ actions) (here, good) h =
      let (quiet, rest) = no_objection (objection m false a) (collide m false actions).1 h in
      (settle-Fresh a here quiet, collide-Fresh actions good rest)
