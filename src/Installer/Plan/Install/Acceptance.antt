-- ===== src/Installer/Plan/Install/Acceptance.antt =====
-- Exactly when `install` yields a plan: an independent list of what the machine and the options
-- have to satisfy.
use one_drive_hydration.Prelude.{
  ℕ, ◌≡◌, refl, ◌∙◌, ap, sym, Bool, true, false, not, ◌&&◌, ◌||◌, Option, none, some, List, [], ◌∷◌,
  ◌++◌, map, arith, all, any-append, is_empty, is_some, is_none, ◌==◌, is_ok,
}
use one_drive_hydration.Text.{Text}
use one_drive_hydration.Installer.Facts.{Facts, Tray, sni, no_tray}
use one_drive_hydration.Installer.Units.{Templates, UnitFile, Rendered, all_units, render}
use one_drive_hydration.Installer.Units.Scan.{namespace_directives, must_share_host_namespace}
use one_drive_hydration.Installer.Kernel.{KernelSupport, supported}
use one_drive_hydration.Installer.Mounts.{MountRow, parse_mountinfo, find_mount, exposures}
use one_drive_hydration.Installer.Fstab.{
  FstabEntry, no_auto, automatic, absent, fstab_entry, fstab_suggestion,
}
use one_drive_hydration.Installer.Session.{Vantage, SecretService, Plasmoid, binary_state}
use one_drive_hydration.Installer.Plan.{
  Message, Check, Observed, Options, real, Machine, refused, any_refused,
}
use one_drive_hydration.Installer.Plan.Checks.{
  check_kernel, check_vantage, check_mount, check_fstype, check_exposure, check_fstab,
  check_secrets, check_tray, check_binaries, check_unit_text, allows_hsm, wanted_binaries,
  missing_binaries, directive_hits,
}
use one_drive_hydration.Installer.Plan.Collide.Agrees.{agrees, is_empty-collide}
use one_drive_hydration.Installer.Plan.Install.{
  root_checks, mount_checks, collision, planned_actions, install_checks, install,
}

abbrev pub not_sandboxed : Vantage → Bool
not_sandboxed (Vantage.sandboxed detail) = false
not_sandboxed _ = true

abbrev pub fstab_settled : FstabEntry → Bool → Bool
fstab_settled no_auto consent = true
fstab_settled (automatic line) consent = false
fstab_settled absent consent = consent

abbrev pub secrets_usable : SecretService → Bool → Bool
secrets_usable (SecretService.unreachable detail) is_real = false
secrets_usable (SecretService.unverifiable detail) is_real = not is_real
secrets_usable _ is_real = true

-- The applet and no word on the tray leave the question open.
abbrev pub tray_decided : Plasmoid → Option Tray → Bool
tray_decided (Plasmoid.present path) none = false
tray_decided _ _ = true

-- The surface that a decided question gives.
abbrev pub tray_surface : Plasmoid → Option Tray → Tray
tray_surface (Plasmoid.present path) none = no_tray
tray_surface Plasmoid.absent none = sni
tray_surface _ (some tray) = tray

abbrev pub all_executable : Machine → Text → List Text → Bool
all_executable m bin_dir = all (λ b. is_ok (binary_state m.metadata bin_dir b))

abbrev pub keeps_host_namespace : UnitFile → Bool
keeps_host_namespace unit =
    not (must_share_host_namespace unit.name) || is_empty (namespace_directives unit.text)

abbrev pub mount_suitable : Facts → Observed → Options → List MountRow → Option MountRow → Bool
mount_suitable facts observed opts rows none = false
mount_suitable facts observed opts rows (some row) =
    allows_hsm row.fstype
    && is_empty (exposures rows row)
    && fstab_settled (fstab_entry observed.fstab facts.mount) opts.consent_fstab

unfoldable pub acceptable : Machine → Facts → Templates → Observed → Options → Bool
acceptable m facts templates observed opts =
    let rows = parse_mountinfo observed.mountinfo in
    let tray = tray_surface observed.plasmoid opts.tray in
    let rendered = render templates facts tray in
    (not (real opts) || m.euid == 0)
    && not_sandboxed observed.vantage
    && supported observed.kernel
    && mount_suitable facts observed opts rows (find_mount rows facts.mount)
    && secrets_usable observed.secrets (real opts)
    && tray_decided observed.plasmoid opts.tray
    && all_executable m facts.bin_dir (wanted_binaries tray)
    && all keeps_host_namespace (all_units rendered)
    && all (agrees m opts.force) (planned_actions m facts opts tray rendered)

abbrev refuses : Check → Bool
refuses c = is_some (refused c)

check_kernel-refuses : (k : KernelSupport) → refuses (check_kernel k) ≡ not (supported k)
unfolding check_kernel
check_kernel-refuses k = ground arith

check_vantage-refuses : (v : Vantage) → refuses (check_vantage v) ≡ not (not_sandboxed v)
unfolding check_vantage
check_vantage-refuses v = ground arith

check_mount-refuses :
    (rows : List MountRow) (mount : Text)
    → refuses (check_mount rows mount).0 ≡ is_none (find_mount rows mount)
unfolding check_mount
check_mount-refuses rows mount = ground arith

check_fstype-refuses : (row : MountRow) → refuses (check_fstype row) ≡ not (allows_hsm row.fstype)
unfolding check_fstype
check_fstype-refuses row = ground arith

check_exposure-refuses :
    (rows : List MountRow) (row : MountRow)
    → refuses (check_exposure rows row) ≡ not (is_empty (exposures rows row))
unfolding check_exposure
check_exposure-refuses rows row = ground arith

check_fstab-refuses :
    (entry : FstabEntry) (line : Option Text) (consent : Bool)
    → refuses (check_fstab (some entry) line consent).0 ≡ not (fstab_settled entry consent)
unfolding check_fstab
check_fstab-refuses entry line consent = ground arith

check_secrets-refuses :
    (s : SecretService) (is_real : Bool)
    → refuses (check_secrets s is_real) ≡ not (secrets_usable s is_real)
unfolding check_secrets
check_secrets-refuses s is_real = ground arith

check_tray-refuses :
    (p : Plasmoid) (chosen : Option Tray)
    → refuses (check_tray p chosen).0 ≡ not (tray_decided p chosen)
unfolding check_tray
check_tray-refuses p chosen = ground arith

pub check_tray-tray :
    (p : Plasmoid) (chosen : Option Tray) → (check_tray p chosen).1 ≡ tray_surface p chosen
unfolding check_tray
check_tray-tray p chosen = ground arith

is_empty-missing_binaries :
    (m : Machine) (dir : Text) (wanted : List Text)
    → is_empty (missing_binaries m dir wanted) ≡ all_executable m dir wanted
unfolding missing_binaries
is_empty-missing_binaries m dir [] = refl
is_empty-missing_binaries m dir (b ∷ wanted) =
    ground (arith, is_empty-missing_binaries m dir wanted)

check_binaries-refuses :
    (m : Machine) (dir : Text) (tray : Tray)
    → refuses (check_binaries m dir tray) ≡ not (all_executable m dir (wanted_binaries tray))
unfolding check_binaries
check_binaries-refuses m dir tray =
    ground (arith, is_empty-missing_binaries m dir (wanted_binaries tray))

is_empty-map-append {ℓ} :
    {A B : Type ℓ} (f : A → B) (xs : List A) (ys : List B)
    → is_empty (map f xs ++ ys) ≡ (is_empty xs && is_empty ys)
is_empty-map-append f [] ys = refl
is_empty-map-append f (x ∷ xs) ys = refl

is_empty-directive_hits :
    (units : List UnitFile) → is_empty (directive_hits units) ≡ all keeps_host_namespace units
unfolding directive_hits
is_empty-directive_hits [] = refl
is_empty-directive_hits (unit ∷ units) = ground (
  arith,
  is_empty-directive_hits units,
  is_empty-map-append (λ (hit : ℕ × Text). (unit.name, hit.0, hit.1))
      (namespace_directives unit.text) (directive_hits units),
)

check_unit_text-refuses :
    (r : Rendered) → refuses (check_unit_text r) ≡ not (all keeps_host_namespace (all_units r))
unfolding check_unit_text
check_unit_text-refuses r = ground (arith, is_empty-directive_hits (all_units r))

root_checks-refuses :
    (m : Machine) (opts : Options)
    → any_refused (root_checks m opts) ≡ not (not (real opts) || m.euid == 0)
unfolding root_checks
root_checks-refuses m opts = ground arith

collisions-refuse :
    (messages : List Message) → any_refused (map collision messages) ≡ not (is_empty messages)
collisions-refuse [] = refl
collisions-refuse (message ∷ messages) = refl

not-and : (a b : Bool) → not (a && b) ≡ (not a || not b)
not-and a b = ground arith

or-false : (a : Bool) → (a || false) ≡ a
or-false a = ground arith

or_assoc : (a b c : Bool) → ((a || b) || c) ≡ (a || (b || c))
or_assoc a b c = ground arith

module _ (m : Machine) (facts : Facts) (observed : Observed) (opts : Options)
    (rows : List MountRow) where
  mount_checks-refuse :
      (row : Option MountRow)
      → (is_none row || any_refused (mount_checks m facts observed opts rows row).0)
        ≡ not (mount_suitable facts observed opts rows row)
  unfolding mount_checks
  mount_checks-refuse none = refl
  mount_checks-refuse (some row) = simp (
    check_fstype-refuses row,
    check_exposure-refuses rows row,
    check_fstab-refuses (fstab_entry observed.fstab facts.mount)
        (some (fstab_suggestion m.by_uuid row)) opts.consent_fstab,
    not-and,
    or-false,
    or_assoc,
  )

  mount_checks-refuse_first :
      (row : Option MountRow) (rest : Bool)
      → (is_none row || (any_refused (mount_checks m facts observed opts rows row).0 || rest))
        ≡ (not (mount_suitable facts observed opts rows row) || rest)
  mount_checks-refuse_first row rest =
      sym (or_assoc _ _ rest) ∙ ap (λ b. b || rest) (mount_checks-refuse row)

check_mount-row :
    (rows : List MountRow) (mount : Text) → (check_mount rows mount).1 ≡ find_mount rows mount
unfolding check_mount
check_mount-row rows mount = refl

module _ (m : Machine) (facts : Facts) (templates : Templates) (observed : Observed)
    (opts : Options) where
  install_checks-refuse :
      any_refused (install_checks m facts templates observed opts)
      ≡ not (acceptable m facts templates observed opts)
  unfolding install_checks acceptable
  install_checks-refuse = simp (
    check_mount-row,
    check_tray-tray,
    any-append {0},
    root_checks-refuses,
    check_vantage-refuses,
    check_kernel-refuses,
    check_mount-refuses,
    mount_checks-refuse_first,
    check_secrets-refuses,
    check_tray-refuses,
    check_binaries-refuses,
    check_unit_text-refuses,
    collisions-refuse,
    is_empty-collide,
    not-and,
    or_assoc,
  )

  -- `install` yields a plan exactly when the machine and the options are acceptable: a real run is
  -- root's; the view of the mounts is not known to be a sandbox's; the kernel has pre-content events;
  -- the sync root is a mount whose filesystem takes the marks, that no other mount exposes, and whose
  -- fstab entry is `noauto` or is missing with consent to add it; Secret Service is usable; the tray
  -- is decided; every wanted binary is executable; no helper unit leaves the host's namespace; and,
  -- unless forced, no file that can be read as UTF-8 text where a unit goes has another text, and no
  -- link where a link goes has another target.
  pub install-acceptable :
      (is_some (install m facts templates observed opts).actions)
      ≡ acceptable m facts templates observed opts
  unfolding install
  install-acceptable = ground (arith, install_checks-refuse)
