-- ===== src/Installer/Fstab/Line.antt =====
-- A line of six fields, read back.
use one_drive_hydration.Prelude.{
  ℕ, ◌≡◌, refl, ◌∙◌, ap, sym, subst, ◌≢◌, true, false, ◌||◌, some, [], ◌∷◌, ◌++◌, append_assoc, any,
  is_empty, All-append, ◌==◌,
}
use one_drive_hydration.Text.{Text, codes, text_eq_refl, starts_with, split, Avoids}
use one_drive_hydration.Text.Words.{
  is_whitespace, NoSpace, split_whitespace, split_whitespace-cons, words_from, lines, trim,
}
use one_drive_hydration.Text.Laws.{lines_one, trim_trimmed, NoSpace-newline}
use one_drive_hydration.Installer.Mounts.{unescape}
use one_drive_hydration.Installer.Fstab.{no_auto, entry_of_options, entry_of_fields, entry_of_line}
use one_drive_hydration.Installer.Fstab.Options.{is_noauto}

two_zeros : split_whitespace (codes "0 0") ≡ codes "0" ∷ codes "0" ∷ []
unfolding split_whitespace words_from is_whitespace
two_zeros = refl

-- Words with a blank between them: what `split_whitespace` makes of the six fields.
six_fields :
    (device point fstype options : Text)
    → NoSpace device
    → device ≢ []
    → NoSpace point
    → point ≢ []
    → NoSpace fstype
    → fstype ≢ []
    → NoSpace options
    → options ≢ []
    → split_whitespace (device ++ 32 ∷ (point ++ 32 ∷ (fstype ++ 32 ∷ (options ++ codes " 0 0"))))
      ≡ device ∷ point ∷ fstype ∷ options ∷ codes "0" ∷ codes "0" ∷ []
unfolding is_whitespace
six_fields device point fstype options hd nd hp np hf nf ho filled =
    split_whitespace-cons device _ 32 hd nd refl
    ∙ ap (λ t. device ∷ t)
        (split_whitespace-cons point _ 32 hp np refl
          ∙ ap (λ t. point ∷ t)
              (split_whitespace-cons fstype _ 32 hf nf refl
                ∙ ap (λ t. fstype ∷ t)
                    (split_whitespace-cons options (codes "0 0") 32 ho filled refl
                      ∙ ap (λ t. options ∷ t) two_zeros)))

front : Text → Text → Text → Text → Text
front device point fstype options =
    device ++ 32 ∷ (point ++ 32 ∷ (fstype ++ 32 ∷ (options ++ codes " 0 ")))

front-zero :
    (device point fstype options : Text)
    → front device point fstype options ++ codes "0"
      ≡ device ++ 32 ∷ (point ++ 32 ∷ (fstype ++ 32 ∷ (options ++ codes " 0 0")))
unfolding front
front-zero device point fstype options =
    append_assoc device (32 ∷ (point ++ 32 ∷ (fstype ++ 32 ∷ (options ++ codes " 0 ")))) (codes "0")
    ∙ ap (λ t. device ++ 32 ∷ t)
        (append_assoc point (32 ∷ (fstype ++ 32 ∷ (options ++ codes " 0 "))) (codes "0")
          ∙ ap (λ t. point ++ 32 ∷ t)
              (append_assoc fstype (32 ∷ (options ++ codes " 0 ")) (codes "0")
                ∙ ap (λ t. fstype ++ 32 ∷ t) (append_assoc options (codes " 0 ") (codes "0"))))

starts_plainly :
    (b : ℕ) (s : Text)
    → (b == 35) ≡ false
    → (is_empty (b ∷ s) || starts_with (b ∷ s) (codes "#")) ≡ false
unfolding starts_with
starts_plainly b s h = rw h refl

line_trimmed :
    (b : ℕ) (device point fstype options : Text)
    → is_whitespace b ≡ false
    → trim ((b ∷ device) ++ 32 ∷ (point ++ 32 ∷ (fstype ++ 32 ∷ (options ++ codes " 0 0"))))
      ≡ (b ∷ device) ++ 32 ∷ (point ++ 32 ∷ (fstype ++ 32 ∷ (options ++ codes " 0 0")))
unfolding front is_whitespace
line_trimmed b device point fstype options h =
    ap trim (sym (front-zero (b ∷ device) point fstype options))
    ∙ trim_trimmed b (front device point fstype options) 48 h refl
    ∙ front-zero (b ∷ device) point fstype options

-- A line of six words whose second is the mount is about the mount.
pub line_read :
    (b : ℕ) (device point fstype options : Text)
    → NoSpace (b ∷ device)
    → (b == 35) ≡ false
    → NoSpace point
    → point ≢ []
    → unescape point ≡ point
    → NoSpace fstype
    → fstype ≢ []
    → NoSpace options
    → options ≢ []
    → any is_noauto (split 44 options) ≡ true
    → entry_of_line point
        ((b ∷ device) ++ 32 ∷ (point ++ 32 ∷ (fstype ++ 32 ∷ (options ++ codes " 0 0"))))
      ≡ some no_auto
unfolding entry_of_line entry_of_fields entry_of_options
line_read b device point fstype options hd plain hp np same hf nf ho filled noauto =
    rw (line_trimmed b device point fstype options hd.0) (
      rw
        (starts_plainly b
          (device ++ 32 ∷ (point ++ 32 ∷ (fstype ++ 32 ∷ (options ++ codes " 0 0")))) plain)
        (rw (six_fields (b ∷ device) point fstype options hd (λ e. cc) hp np hf nf ho filled)
          (rw (same, text_eq_refl) (rw noauto refl))))

abbrev IsLine : Text → Type 0
IsLine = Avoids (λ c. c == 10)

-- No newline in the line, so `lines` gives it back.
pub line_alone :
    (device point fstype options : Text)
    → NoSpace device
    → NoSpace point
    → NoSpace fstype
    → NoSpace options
    → lines
        ((device ++ 32 ∷ (point ++ 32 ∷ (fstype ++ 32 ∷ (options ++ codes " 0 0")))) ++ codes "\n")
      ≡ (device ++ 32 ∷ (point ++ 32 ∷ (fstype ++ 32 ∷ (options ++ codes " 0 0")))) ∷ []
unfolding front
line_alone device point fstype options hd hp hf ho =
    let P : ℕ → Type 0 = λ c. (c == 10) ≡ false in
    let one : IsLine (options ++ codes " 0 ") =
      All-append P options (codes " 0 ") (NoSpace-newline options ho) (refl, (refl, (refl, tt))) in
    let two : IsLine (fstype ++ 32 ∷ (options ++ codes " 0 ")) =
      All-append P fstype (32 ∷ (options ++ codes " 0 ")) (NoSpace-newline fstype hf) (refl, one) in
    let three : IsLine (point ++ 32 ∷ (fstype ++ 32 ∷ (options ++ codes " 0 "))) =
      All-append P point (32 ∷ (fstype ++ 32 ∷ (options ++ codes " 0 "))) (NoSpace-newline point hp)
        (refl, two) in
    let four : IsLine (front device point fstype options) =
      All-append P device (32 ∷ (point ++ 32 ∷ (fstype ++ 32 ∷ (options ++ codes " 0 "))))
        (NoSpace-newline device hd) (refl, three) in
    subst (λ t. lines (t ++ codes "\n") ≡ t ∷ []) (front-zero device point fstype options)
      (lines_one (front device point fstype options) 48
        (All-append P (front device point fstype options) (codes "0") four (refl, tt)) refl)
