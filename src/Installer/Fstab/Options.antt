-- ===== src/Installer/Fstab/Options.antt =====
-- The options that the installer suggests.
use one_drive_hydration.Prelude.{
  ◌≡◌, refl, ◌∙◌, ap, sym, ◌≢◌, Bool, true, false, ◌||◌, [], ◌∷◌, ◌++◌, append_assoc, any,
  any-append, unwrap_or, Bool-cases, inl, inr,
}
use one_drive_hydration.Text.{Text, codes, text_eq, split, split_from}
use one_drive_hydration.Text.Laws.{split-append}
use one_drive_hydration.Installer.Mounts.{MountRow}
use one_drive_hydration.Installer.Fstab.{subvol_option, suggested_options}

abbrev pub is_noauto : Text → Bool
is_noauto o = text_eq o (codes "noauto")

or_true : (b : Bool) → (b || true) ≡ true
or_true true = refl
or_true false = refl

noauto_first : (b : Text) → any is_noauto (split 44 (codes "noauto" ++ 44 ∷ b)) ≡ true
unfolding split split_from text_eq
noauto_first b = refl

noauto_listed :
    (a b : Text) → any is_noauto (split 44 (a ++ 44 ∷ (codes "noauto" ++ 44 ∷ b))) ≡ true
noauto_listed a b =
    ap (any is_noauto) (split-append 44 a (codes "noauto" ++ 44 ∷ b))
    ∙ any-append is_noauto (split 44 a) (split 44 (codes "noauto" ++ 44 ∷ b))
    ∙ ap (λ t. any is_noauto (split 44 a) || t) (noauto_first b)
    ∙ or_true (any is_noauto (split 44 a))

btrfs_options :
    (v : Text)
    → codes "subvol=" ++ (v ++ codes ",noatime,noauto,nofail")
      ≡ (codes "subvol=" ++ (v ++ codes ",noatime")) ++ 44 ∷ (codes "noauto" ++ 44 ∷ codes "nofail")
btrfs_options v =
    ap (λ t. codes "subvol=" ++ t)
      (sym (append_assoc v (codes ",noatime") (codes ",noauto,nofail")))

-- The suggested options always have `noauto` among them.
pub suggested_options-noauto :
    (row : MountRow) → any is_noauto (split 44 (suggested_options row)) ≡ true
unfolding suggested_options
suggested_options-noauto row = elim (Bool-cases (text_eq row.fstype (codes "btrfs"))) [
  | inl e ↦ rw e (
      ap (λ t. any is_noauto (split 44 t))
        (btrfs_options (unwrap_or (subvol_option (split 44 row.super_options)) (codes "/")))
      ∙ noauto_listed
          (codes "subvol="
            ++ (unwrap_or (subvol_option (split 44 row.super_options)) (codes "/")
                ++ codes ",noatime"))
          (codes "nofail"))
  | inr e ↦ rw e (noauto_first (codes "nofail"))
]

pub suggested_options-filled : (row : MountRow) → suggested_options row ≢ []
unfolding suggested_options
suggested_options-filled row = elim (Bool-cases (text_eq row.fstype (codes "btrfs"))) [
  | inl e ↦ rw e (λ nil. cc)
  | inr e ↦ rw e (λ nil. cc)
]
