-- ===== src/Installer/Fstab/Table.antt =====
-- The table with the two comments and a line behind it.
use one_drive_hydration.Prelude.{
  ◌≡◌, refl, ◌∙◌, ap, ◌≢◌, none, some, List, [], ◌∷◌, ◌++◌, append_assoc, arith,
}
use one_drive_hydration.Text.{Text, codes, starts_with}
use one_drive_hydration.Text.Words.{
  is_whitespace, split_whitespace, lines, lines_from, strip_cr, drop_cr, trim,
}
use one_drive_hydration.Text.Laws.{lines-append}
use one_drive_hydration.Installer.Fstab.{
  fstab_text, FstabEntry, no_auto, absent, entry_of_options, entry_of_fields, entry_of_line,
  entry_of_lines, fstab_entry,
}

abbrev comment_1 : Text
comment_1 = codes "# OneDrive hydration sync root. noauto on purpose: the mount must not exist"

abbrev comment_2 : Text
comment_2 = codes "# before the helper that marks it (see hydrationd.service)."

comment_lines :
    (lines (comment_1 ++ codes "\n") ≡ comment_1 ∷ [])
    × (lines (comment_2 ++ codes "\n") ≡ comment_2 ∷ [])
unfolding lines lines_from strip_cr drop_cr
comment_lines = (refl, refl)

comments_skipped :
    (want : Text) → (entry_of_line want comment_1 ≡ none) × (entry_of_line want comment_2 ≡ none)
unfolding entry_of_line trim starts_with is_whitespace
comments_skipped want = (refl, refl)

pub lines-fstab_text :
    (l : Text)
    → lines (l ++ codes "\n") ≡ l ∷ []
    → lines (fstab_text l) ≡ comment_1 ∷ comment_2 ∷ l ∷ []
lines-fstab_text l h =
    lines-append comment_1 (comment_2 ++ 10 ∷ (l ++ codes "\n"))
    ∙ rw (comment_lines.0) (
        ap (λ t. comment_1 ∷ t)
          (lines-append comment_2 (l ++ codes "\n") ∙ rw (comment_lines.1, h) refl))

entry_of_options-present : (line options : Text) → entry_of_options line options ≢ absent
unfolding entry_of_options
entry_of_options-present line options = ground arith

entry_of_fields-present :
    (want line : Text) (fields : List Text) → entry_of_fields want line fields ≢ some absent
unfolding entry_of_fields
entry_of_fields-present want line [] = cc
entry_of_fields-present want line (_ ∷ []) = cc
entry_of_fields-present want line (_ ∷ _ ∷ []) = cc
entry_of_fields-present want line (_ ∷ _ ∷ _ ∷ []) = cc
entry_of_fields-present want line (a ∷ file ∷ c ∷ options ∷ rest) =
    ground (arith, entry_of_options-present line options)

entry_of_line-present : (want raw : Text) → entry_of_line want raw ≢ some absent
unfolding entry_of_line
entry_of_line-present want raw =
    ground (arith, entry_of_fields-present want (trim raw) (split_whitespace (trim raw)))

entry_of_lines-append :
    (want : Text) (xs ys : List Text)
    → entry_of_lines want xs ≡ absent
    → entry_of_lines want (xs ++ ys) ≡ entry_of_lines want ys
unfolding entry_of_lines
entry_of_lines-append want [] ys h = refl
entry_of_lines-append want (x ∷ xs) ys h =
    ground (arith, entry_of_lines-append want xs ys, entry_of_line-present want x)

line_skipped :
    (want raw : Text) (rest : List Text)
    → entry_of_line want raw ≡ none
    → entry_of_lines want (raw ∷ rest) ≡ entry_of_lines want rest
unfolding entry_of_lines
line_skipped want raw rest h = ground arith

line_decides :
    (want raw : Text) (rest : List Text) {entry : FstabEntry}
    → entry_of_line want raw ≡ some entry
    → entry_of_lines want (raw ∷ rest) ≡ entry
unfolding entry_of_lines
line_decides want raw rest h = ground arith

-- The comments say nothing, the line decides.
pub appended_lines :
    (want l : Text)
    → entry_of_line want l ≡ some no_auto
    → entry_of_lines want (comment_1 ∷ comment_2 ∷ l ∷ []) ≡ no_auto
appended_lines want l h =
    line_skipped want comment_1 (comment_2 ∷ l ∷ []) (comments_skipped want).0
    ∙ line_skipped want comment_2 (l ∷ []) (comments_skipped want).1
    ∙ line_decides want l [] h

-- What stands behind a final newline decides if the rest has no entry.
pub fstab_entry-append :
    (table added want : Text)
    → fstab_entry (table ++ codes "\n") want ≡ absent
    → fstab_entry ((table ++ codes "\n") ++ added) want ≡ entry_of_lines want (lines added)
unfolding fstab_entry
fstab_entry-append table added want free =
    ap (λ t. entry_of_lines want (lines t)) (append_assoc table (codes "\n") added)
    ∙ ap (entry_of_lines want) (lines-append table added)
    ∙ entry_of_lines-append want (lines (table ++ codes "\n")) (lines added) free
