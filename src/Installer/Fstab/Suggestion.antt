-- ===== src/Installer/Fstab/Suggestion.antt =====
-- The line that the installer appends, read back by the installer.
use one_drive_hydration.Prelude.{ℕ, ◌≡◌, refl, ◌∙◌, ap, sym, ◌≢◌, false, [], ◌∷◌, ◌++◌, All, ◌==◌}
use one_drive_hydration.Text.{Text, codes}
use one_drive_hydration.Text.Words.{NoSpace}
use one_drive_hydration.Text.Bytes.{IsAscii}
use one_drive_hydration.Installer.Mounts.{MountRow, unescape}
use one_drive_hydration.Installer.Mounts.Escape.{is_mangled, mangle, unescape-mangle}
use one_drive_hydration.Installer.Fstab.{
  fstab_text, no_auto, absent, entry_of_lines, fstab_entry, ByUuid, stable_device_name,
  suggested_options, fstab_suggestion,
}
use one_drive_hydration.Installer.Fstab.Options.{suggested_options-noauto, suggested_options-filled}
use one_drive_hydration.Installer.Fstab.Line.{line_read, line_alone}
use one_drive_hydration.Installer.Fstab.Table.{lines-fstab_text, appended_lines, fstab_entry-append}

mangle_plain : (s : Text) → All (λ c. is_mangled false c ≡ false) s → mangle false s ≡ s
unfolding mangle
mangle_plain [] h = refl
mangle_plain (c ∷ s) (hc, h) = rw hc (ap (λ t. c ∷ t) (mangle_plain s h))

unescape_plain : (s : Text) → IsAscii s → All (λ c. is_mangled false c ≡ false) s → unescape s ≡ s
unescape_plain s small h = ap unescape (sym (mangle_plain s h)) ∙ unescape-mangle false s small

-- Let the fields of a mount be words: the name that the device gets is `b ∷ device`, not starting
-- with `#`, the mount point is ASCII without a character that the kernel escapes there, and neither of
-- these, the file system type and the options hold white space. If a table that ends in a newline
-- has no entry for the mount point, then the same table with what the installer appends for that
-- mount has an entry, and the entry is `noauto`.
pub fstab_suggestion-no_auto :
    (devices : ByUuid) (row : MountRow) (table : Text) (b : ℕ) (device : Text)
    → stable_device_name devices row.source ≡ b ∷ device
    → NoSpace (b ∷ device)
    → (b == 35) ≡ false
    → IsAscii row.point
    → All (λ c. is_mangled false c ≡ false) row.point
    → NoSpace row.point
    → row.point ≢ []
    → NoSpace row.fstype
    → row.fstype ≢ []
    → NoSpace (suggested_options row)
    → fstab_entry (table ++ codes "\n") row.point ≡ absent
    → fstab_entry ((table ++ codes "\n") ++ fstab_text (fstab_suggestion devices row)) row.point
      ≡ no_auto
unfolding fstab_suggestion
fstab_suggestion-no_auto devices row table b device name hd plain small same hp np hf nf ho free =
    fstab_entry-append table (fstab_text (fstab_suggestion devices row)) row.point free
    ∙ rw name (
        ap (entry_of_lines row.point) (
          lines-fstab_text _
            (line_alone (b ∷ device) row.point row.fstype (suggested_options row) hd hp hf ho))
        ∙ appended_lines row.point _ (
            line_read b device row.point row.fstype (suggested_options row) hd plain hp np
              (unescape_plain row.point small same) hf nf ho (suggested_options-filled row)
              (suggested_options-noauto row)))
