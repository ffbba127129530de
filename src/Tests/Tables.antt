-- ===== src/Tests/Tables.antt =====
-- The theorems on mount tables and on fstab, at concrete tables.
use one_drive_hydration.Prelude.{false, ◌≡◌, refl, true, none, [], ◌∷◌, ◌++◌, any, ◌↔◌, arith}
use one_drive_hydration.Text.{codes, text_eq, Avoids-any, starts_with, split, strip_prefix}
use one_drive_hydration.Text.Words.{is_whitespace, NoSpace, lines, trim}
use one_drive_hydration.Installer.Mounts.{MountRow, unescape, exposures}
use one_drive_hydration.Installer.Mounts.Escape.{mangle, unescape-mangle}
use one_drive_hydration.Installer.Mounts.Exposure.{ExposedBy, exposures_iff}
use one_drive_hydration.Installer.Fstab.{
  no_auto, absent, entry_of_lines, entry_of_line, subvol_option, fstab_entry, stable_device_name,
  suggested_options, fstab_suggestion, fstab_text,
}
use one_drive_hydration.Installer.Fstab.Suggestion.{fstab_suggestion-no_auto}

unescape-mangle_example : unescape (mangle false (codes "/a b")) ≡ codes "/a b"
unescape-mangle_example =
    unescape-mangle false (codes "/a b")
      (omega arith, (omega arith, (omega arith, (omega arith, tt))))

abbrev subvolume : MountRow
subvolume = record {
  devno = codes "0:40";
  root = codes "/sync";
  point = codes "/o";
  fstype = codes "btrfs";
  source = codes "/dev/sda1";
  super_options = codes "rw,subvol=/sync";
}

abbrev top_level : MountRow
top_level = record {
  devno = codes "0:40";
  root = codes "/";
  point = codes "/top";
  fstype = codes "btrfs";
  source = codes "/dev/sda1";
  super_options = codes "rw,subvol=/";
}

exposures_iff_example :
    (any (text_eq (codes "/top")) (exposures (subvolume ∷ top_level ∷ []) subvolume) ≡ true)
    ↔ ExposedBy subvolume (subvolume ∷ top_level ∷ []) (codes "/top")
exposures_iff_example = exposures_iff subvolume (subvolume ∷ top_level ∷ []) (codes "/top")

device_name : stable_device_name none subvolume.source ≡ 47 ∷ codes "dev/sda1"
unfolding stable_device_name
device_name = refl

plain_options : NoSpace (suggested_options subvolume)
unfolding suggested_options is_whitespace text_eq subvol_option split strip_prefix
plain_options = Avoids-any is_whitespace (suggested_options subvolume) refl

unlisted : fstab_entry (codes "# none" ++ codes "\n") subvolume.point ≡ absent
unfolding fstab_entry is_whitespace entry_of_lines lines entry_of_line trim starts_with
unlisted = refl

fstab_suggestion-no_auto_example :
    fstab_entry
      ((codes "# none" ++ codes "\n") ++ fstab_text (fstab_suggestion none subvolume))
      subvolume.point
    ≡ no_auto
unfolding is_whitespace
fstab_suggestion-no_auto_example =
    fstab_suggestion-no_auto none subvolume (codes "# none") 47 (codes "dev/sda1") device_name
      (Avoids-any is_whitespace (47 ∷ codes "dev/sda1") refl) refl (omega arith, (omega arith, tt))
      (refl, (refl, tt)) (refl, (refl, tt)) (λ e. cc)
      (Avoids-any is_whitespace (codes "btrfs") refl) (λ e. cc) plain_options unlisted
