-- ===== src/Installer/Plan/Install/Fresh.antt =====
-- Where an accepted installation writes, and what else it may change.
use one_drive_hydration.Prelude.{
  ◌≡◌, refl, sym, ◌∙◌, ap, subst, Bool, true, false, not, Bool-cases, Option, none, some, List, [],
  ◌∷◌, map, if◌then◌else◌, All, All-append, arith, is_some, is_empty, ◌&&◌, ◌⊎◌, inl, inr,
}
use one_drive_hydration.Text.{Text, codes, strip_prefix}
use one_drive_hydration.Text.Words.{split_whitespace, lines, trim}
use one_drive_hydration.Text.FilePath.{join}
use one_drive_hydration.Installer.Facts.{Facts, Tray, is_sni}
use one_drive_hydration.Installer.Fstab.{FstabEntry, no_auto, automatic, absent, fstab_entry}
use one_drive_hydration.Installer.Mounts.{MountRow}
use one_drive_hydration.Installer.Units.{Templates, UnitFile, Rendered, tray_unit, render}
use one_drive_hydration.Installer.Units.Directory.{user_unit_dir}
use one_drive_hydration.Installer.Plan.{
  Owner, Action, write_file, symlink, append_fstab, remove_file, manual, Observed, Options, Machine,
}
use one_drive_hydration.Installer.Plan.Checks.{check_tray, check_fstab}
use one_drive_hydration.Installer.Plan.Placement.{
  wants, links_of_line, links_of_lines, place, place_all, placement, tray_link, retire_tray_unit,
}
use one_drive_hydration.Installer.Plan.Collide.{collide}
use one_drive_hydration.Installer.Plan.Collide.Agrees.{is_empty-collide}
use one_drive_hydration.Installer.Plan.Collide.Fresh.{Fresh, collide-Fresh}
use one_drive_hydration.Installer.Plan.Install.{
  mount_checks, planned_actions, append_action, install_actions, install,
}
use one_drive_hydration.Installer.Plan.Install.Acceptance.{
  acceptable, install-acceptable, tray_surface, check_tray-tray,
}

-- What an installation may change beside the files that it writes and the links that it makes: an
-- append to etc/fstab under the prefix, with consent and where the sync root has no entry, and the
-- removal of the tray unit and its link.
abbrev pub Foreseen : Facts → Observed → Options → Action → Type 0
Foreseen facts observed opts (append_fstab path line) =
    (path ≡ join opts.prefix (codes "etc/fstab"))
    × (opts.consent_fstab ≡ true)
    × (fstab_entry observed.fstab facts.mount ≡ absent)
Foreseen facts observed opts (remove_file path) =
    (path ≡ join (user_unit_dir opts.prefix facts.home) tray_unit)
    ⊎ (path ≡ tray_link (user_unit_dir opts.prefix facts.home))
Foreseen facts observed opts _ = Unit

-- A predicate of all that `placement` plans, if it holds of every file and every link.
module _ (P : Action → Type 0)
    (of_file : (path text : Text) (owner : Owner) → P (write_file path text owner))
    (of_link : (path target : Text) (owner : Owner) → P (symlink path target owner)) where
  links-All :
      (path target : Text → Text) (owner : Owner) (targets : List Text)
      → All P (map (λ t. symlink (path t) (target t) owner) targets)
  links-All path target owner [] = tt
  links-All path target owner (t ∷ targets) =
      (of_link (path t) (target t) owner, links-All path target owner targets)

  targets-All :
      (name dir rt : Text) (owner : Owner) (targets : Option Text)
      → All P (elim targets [
        | some ts ↦
            map
              (λ target. symlink (join (join dir (wants target)) name) (join rt name) owner)
              (split_whitespace ts)
        | none ↦ []
      ])
  targets-All name dir rt owner none = tt
  targets-All name dir rt owner (some ts) =
      links-All (λ target. join (join dir (wants target)) name) (λ t. join rt name) owner
        (split_whitespace ts)

  links_of_lines-All :
      (name dir rt : Text) (owner : Owner) (ls : List Text)
      → All P (links_of_lines name dir rt owner ls)
  unfolding links_of_lines
  links_of_lines-All name dir rt owner [] = tt
  links_of_lines-All name dir rt owner (l ∷ ls) =
      All-append P (links_of_line name dir rt owner l) (links_of_lines name dir rt owner ls)
        (targets-All name dir rt owner (strip_prefix (codes "WantedBy=") (trim l)))
        (links_of_lines-All name dir rt owner ls)

  place_all-All :
      (dir rt : Text) (owner : Owner) (units : List UnitFile) → All P (place_all dir rt owner units)
  unfolding place_all place
  place_all-All dir rt owner [] = tt
  place_all-All dir rt owner (unit ∷ units) =
      All-append P (place dir rt owner unit) (place_all dir rt owner units)
        (of_file _ _ owner, links_of_lines-All unit.name dir rt owner (lines unit.text))
        (place_all-All dir rt owner units)

  placement-All :
      (rendered : Rendered) (facts : Facts) (opts : Options) → All P (placement rendered facts opts)
  unfolding placement
  placement-All rendered facts opts = All-append P _ _ (place_all-All _ _ _ rendered.system) (
      All-append P _ _ (place_all-All _ _ _ rendered.user)
        (place_all-All _ _ _ rendered.bus_services))

if-All :
    (P : Action → Type 0) (b : Bool) (xs ys : List Action)
    → All P xs
    → All P ys
    → All P (if b then xs else ys)
if-All P true xs ys f g = f
if-All P false xs ys f g = g

check_fstab-append :
    (entry : FstabEntry) (suggestion : Option Text) (consent : Bool) (line : Text)
    → (check_fstab (some entry) suggestion consent).1 ≡ some line
    → (consent ≡ true) × (entry ≡ absent)
unfolding check_fstab
check_fstab-append no_auto suggestion consent line h = cc
check_fstab-append (automatic l) suggestion consent line h = cc
check_fstab-append absent suggestion true line h = (refl, refl)
check_fstab-append absent suggestion false line h = cc

and_right : (a b : Bool) → (a && b) ≡ true → b ≡ true
and_right true b h = h
and_right false b h = cc

module _ (m : Machine) (facts : Facts) (templates : Templates) (observed : Observed)
    (opts : Options) where
  accepted_actions :
      {actions : List Action}
      → (install m facts templates observed opts).actions ≡ some actions
      → actions ≡ install_actions m facts templates observed opts
  unfolding install
  accepted_actions h = ground arith

  accepted :
      {actions : List Action}
      → (install m facts templates observed opts).actions ≡ some actions
      → acceptable m facts templates observed opts ≡ true
  accepted h = sym (install-acceptable m facts templates observed opts) ∙ ap is_some h

  abbrev written : Tray → List Action
  written tray = planned_actions m facts opts tray (render templates facts tray)

  no_collisions :
      acceptable m facts templates observed opts ≡ true
      → is_empty (collide m opts.force (written (tray_surface observed.plasmoid opts.tray))).1
        ≡ true
  unfolding acceptable
  no_collisions h =
      is_empty-collide m opts.force (written (tray_surface observed.plasmoid opts.tray))
      ∙ and_right _ _ h

  abbrev Kept : Action → Type 0
  Kept = Fresh (Foreseen facts observed opts) m

  retire_tray_unit-Foreseen : All (Foreseen facts observed opts) (retire_tray_unit m facts opts)
  unfolding retire_tray_unit
  retire_tray_unit-Foreseen =
      let usr_dir = user_unit_dir opts.prefix facts.home in
      elim (Bool-cases
        (not (m.exists (join usr_dir tray_unit)) && not (m.link_exists (tray_link usr_dir)))) [
          | inl e ↦ rw e tt
          | inr e ↦ rw e (tt, (inl refl, (inr refl, tt)))
        ]

  written-Foreseen : (tray : Tray) → All (Foreseen facts observed opts) (written tray)
  unfolding planned_actions
  written-Foreseen tray =
      All-append (Foreseen facts observed opts) _ _
        (placement-All (Foreseen facts observed opts) (λ p t o. tt) (λ p t o. tt)
          (render templates facts tray) facts opts)
        (if-All (Foreseen facts observed opts) (is_sni tray) [] _ tt retire_tray_unit-Foreseen)

  mount_checks-append :
      (rows : List MountRow) (row : Option MountRow) (line : Text)
      → (mount_checks m facts observed opts rows row).1 ≡ some line
      → (opts.consent_fstab ≡ true) × (fstab_entry observed.fstab facts.mount ≡ absent)
  unfolding mount_checks
  mount_checks-append rows none line h = cc
  mount_checks-append rows (some row) line h = check_fstab-append _ _ _ line h

  append-Fresh :
      (o : Option Text)
      → ((line : Text)
          → o ≡ some line
          → (opts.consent_fstab ≡ true) × (fstab_entry observed.fstab facts.mount ≡ absent))
      → All Kept (append_action opts o)
  unfolding append_action
  append-Fresh none h = tt
  append-Fresh (some line) h =
      let (consent, missing) = h line refl in ((refl, consent, missing), tt)

  settled-Fresh :
      opts.force ≡ false
      → acceptable m facts templates observed opts ≡ true
      → All Kept (collide m opts.force (written (check_tray observed.plasmoid opts.tray).1)).0
  settled-Fresh unforced h =
      subst (λ tray. All Kept (collide m opts.force (written tray)).0)
        (sym (check_tray-tray observed.plasmoid opts.tray))
        (subst
          (λ force.
            (actions : List Action)
            → All (Foreseen facts observed opts) actions
            → is_empty (collide m force actions).1 ≡ true
            → All Kept (collide m force actions).0)
          (sym unforced) (collide-Fresh (Foreseen facts observed opts) m)
          (written (tray_surface observed.plasmoid opts.tray))
          (written-Foreseen (tray_surface observed.plasmoid opts.tray)) (no_collisions h))

  -- Without `force`, in an accepted plan: where it writes a file the machine had nothing that could be
  -- read as a text, and where it makes a link the machine had no link. It appends only to etc/fstab
  -- under the prefix, and only with consent and if the sync root has no entry there; and it removes
  -- nothing but the tray unit and its link.
  pub install-Fresh :
      {actions : List Action}
      → opts.force ≡ false
      → (install m facts templates observed opts).actions ≡ some actions
      → All (Fresh (Foreseen facts observed opts) m) actions
  unfolding install_actions
  install-Fresh unforced h = rw (accepted_actions h) (
      All-append Kept _ _ (settled-Fresh unforced (accepted h))
        (All-append Kept _ (manual _ ∷ []) (append-Fresh _ (mount_checks-append _ _)) (tt, tt)))
