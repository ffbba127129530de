-- ===== src/Installer/Fstab.antt =====
-- /etc/fstab as crates/installer/src/probes.rs reads it and extends it.
pub mod Options
pub mod Line
pub mod Table
pub mod Suggestion
use one_drive_hydration.Prelude.{
  ℕ, ◌≡◌, refl, Bool, true, false, not, ◌&&◌, ◌||◌, Option, none, some, List, [], ◌∷◌, ◌++◌,
  if◌then◌else◌, any, is_empty, unwrap_or,
}
use one_drive_hydration.Text.{Text, codes, text_eq, starts_with, strip_prefix, split}
use one_drive_hydration.Text.Words.{split_whitespace, lines, trim}
use one_drive_hydration.Text.FilePath.{path_eq}
use one_drive_hydration.Installer.Mounts.{MountRow, unescape}

pub data FstabEntry : Type 0 where
  no_auto : FstabEntry
  automatic : Text → FstabEntry
  absent : FstabEntry

-- The judgment of a line that has at least four fields and names the mount.
unfoldable pub entry_of_options : Text → Text → FstabEntry
entry_of_options line options =
    if any (λ o. text_eq o (codes "noauto")) (split 44 options) then no_auto else automatic line

unfoldable pub entry_of_fields : Text → Text → List Text → Option FstabEntry
unfolding entry_of_options
entry_of_fields want line (_ ∷ file ∷ _ ∷ options ∷ _) =
    if text_eq (unescape file) want then some (entry_of_options line options) else none
entry_of_fields want line _ = none

-- One round of the loop: a line that is blank, a comment or about another mount is passed over.
unfoldable pub entry_of_line : Text → Text → Option FstabEntry
unfolding entry_of_fields
entry_of_line want raw =
    let line = trim raw in
    if is_empty line || starts_with line (codes "#")
    then none
    else entry_of_fields want line (split_whitespace line)

unfoldable pub entry_of_lines : Text → List Text → FstabEntry
entry_of_lines want [] = absent
entry_of_lines want (raw ∷ rest) =
    let later = entry_of_lines want rest in
    elim (entry_of_line want raw) [ some entry ↦ entry | none ↦ later ]

unfoldable pub fstab_entry : Text → Text → FstabEntry
fstab_entry text mount = entry_of_lines mount (lines text)

-- `read_dir("/dev/disk/by-uuid")`: `none` if it cannot be read, else the entries' names with what
-- `canonicalize` makes of them.
abbrev pub ByUuid : Type 0
ByUuid = Option (List (Text × Option Text))

name_of_device : Text → List (Text × Option Text) → Text
name_of_device source [] = source
name_of_device source ((name, none) ∷ rest) = name_of_device source rest
name_of_device source ((name, some target) ∷ rest) =
    let later = name_of_device source rest in
    if path_eq target source then codes "UUID=" ++ name else later

unfoldable pub stable_device_name : ByUuid → Text → Text
unfolding name_of_device
stable_device_name none source = source
stable_device_name (some entries) source = name_of_device source entries

-- `find_map(|o| o.strip_prefix("subvol="))`
unfoldable pub subvol_option : List Text → Option Text
unfolding strip_prefix
subvol_option [] = none
subvol_option (o ∷ options) =
    let later = subvol_option options in
    elim (strip_prefix (codes "subvol=") o) [ some v ↦ some v | none ↦ later ]

unfoldable pub suggested_options : MountRow → Text
unfolding subvol_option
suggested_options row =
    if text_eq row.fstype (codes "btrfs")
    then codes "subvol="
      ++ (unwrap_or (subvol_option (split 44 row.super_options)) (codes "/")
          ++ codes ",noatime,noauto,nofail")
    else codes "noauto,nofail"

unfoldable pub fstab_suggestion : ByUuid → MountRow → Text
fstab_suggestion devices row =
    stable_device_name devices row.source
    ++ 32 ∷ (row.point ++ 32 ∷ (row.fstype ++ 32 ∷ (suggested_options row ++ codes " 0 0")))

-- What is written behind the table for a line.
abbrev pub fstab_text : Text → Text
fstab_text line =
    codes "# OneDrive hydration sync root. noauto on purpose: the mount must not exist\n"
    ++ (codes "# before the helper that marks it (see hydrationd.service).\n"
        ++ (line ++ codes "\n"))
