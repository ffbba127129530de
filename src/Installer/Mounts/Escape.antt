-- ===== src/Installer/Mounts/Escape.antt =====
-- The octal escapes of mount tables: what `unescape` restores, and what it cannot.
use one_drive_hydration.Prelude.{
  ◌&&◌, ℕ, zero, suc, ◌+◌, ◌/◌, ◌%◌, ◌<◌, ◌≡◌, refl, ◌∙◌, ap, subst, ◌≢◌, Bool, true, false, ◌||◌,
  Option, none, some, List, [], ◌∷◌, ◌++◌, leb, if◌then◌else◌, ◌==◌, arith, All, any, Bool-cases,
  inl, inr,
}
use one_drive_hydration.Text.{Text, codes, text_eq-ne, split_once}
use one_drive_hydration.Text.Words.{split_whitespace, lines}
use one_drive_hydration.Text.Bytes.{as_bytes, as_bytes_ascii, IsAscii, IsLatin, as_bytes-IsLatin}
use one_drive_hydration.Installer.Mounts.{
  MountRow, octal_escape, unescape_from, unescape, row_of_words, parse_row, parse_rows,
  parse_mountinfo, find_mount,
}

-- The kernel writes a space, a tab, a newline and a backslash as a backslash and three octal digits
-- (`mangle_path`, and proc(5)), and so it does with a `#` in the name of a device: `device` tells.
abbrev pub is_mangled : Bool → ℕ → Bool
is_mangled device c = c == 32 || c == 9 || c == 10 || c == 92 || (device && c == 35)

abbrev pub octal_digits : ℕ → Text
octal_digits c = (48 + c / 64) ∷ (48 + c / 8 % 8) ∷ (48 + c % 8) ∷ []

unfoldable pub mangle : Bool → Text → Text
mangle device [] = []
mangle device (c ∷ s) =
    let rest = mangle device s in
    if is_mangled device c then 92 ∷ (octal_digits c ++ rest) else c ∷ rest

octal_escape_digits : (c : ℕ) (s : List ℕ) → c < 128 → octal_escape (octal_digits c ++ s) ≡ some c
unfolding octal_escape
octal_escape_digits c s small = ground arith

mangle-IsAscii : (device : Bool) (s : Text) → IsAscii s → IsAscii (mangle device s)
unfolding mangle
mangle-IsAscii device [] h = tt
mangle-IsAscii device (c ∷ s) (small, h) = elim (Bool-cases (is_mangled device c)) [
  | inl e ↦
      rw e (omega arith, (omega arith, (omega arith, (omega arith, mangle-IsAscii device s h))))
  | inr e ↦ rw e (small, mangle-IsAscii device s h)
]

plain_character : (device : Bool) (c : ℕ) → is_mangled device c ≡ false → (c == 92) ≡ false
plain_character device c h = ground arith

unescape_from-mangle :
    (device : Bool) (s : Text) → IsAscii s → unescape_from 0 (mangle device s) ≡ s
unfolding mangle unescape_from
unescape_from-mangle device [] h = refl
unescape_from-mangle device (c ∷ s) (small, h) = elim (Bool-cases (is_mangled device c)) [
  | inl e ↦ rw e (
      rw (octal_escape_digits c (mangle device s) small)
        (ap (λ t. c ∷ t) (unescape_from-mangle device s h)))
  | inr e ↦
      rw e (rw (plain_character device c e) (ap (λ t. c ∷ t) (unescape_from-mangle device s h)))
]

-- An ASCII path, or the ASCII name of a device, that the kernel wrote with its escapes is read back as
-- it was.
pub unescape-mangle : (device : Bool) (s : Text) → IsAscii s → unescape (mangle device s) ≡ s
unfolding unescape
unescape-mangle device s h =
    ap (unescape_from 0) (as_bytes_ascii (mangle device s) (mangle-IsAscii device s h))
    ∙ unescape_from-mangle device s h

octal_escape-lt : (s : List ℕ) {c : ℕ} → octal_escape s ≡ some c → c < 256
unfolding octal_escape
octal_escape-lt (a ∷ b ∷ c ∷ s) h = ground arith
octal_escape-lt _ h = cc

-- The last branch of `unescape_from`.
after_byte : (b : ℕ) (plain rest : Text) (o : Option ℕ) → Text
after_byte b plain rest o = if b == 92 then (elim o [ some c ↦ c ∷ rest | none ↦ plain ]) else plain

after_byte-IsLatin :
    (b : ℕ) (plain rest : Text) (o : Option ℕ)
    → IsLatin plain
    → IsLatin rest
    → ((c : ℕ) → o ≡ some c → c < 256)
    → IsLatin (after_byte b plain rest o)
unfolding after_byte
after_byte-IsLatin b plain rest none hp hr small = elim (Bool-cases (b == 92)) [
  | inl e ↦ rw e hp
  | inr e ↦ rw e hp
]
after_byte-IsLatin b plain rest (some c) hp hr small = elim (Bool-cases (b == 92)) [
  | inl e ↦ rw e (small c refl, hr)
  | inr e ↦ rw e hp
]

unescape_from-IsLatin : (skip : ℕ) (s : List ℕ) → IsLatin s → IsLatin (unescape_from skip s)
unfolding unescape_from after_byte
unescape_from-IsLatin skip [] h = tt
unescape_from-IsLatin (suc skip) (b ∷ s) (small, h) = unescape_from-IsLatin skip s h
unescape_from-IsLatin zero (b ∷ s) (small, h) =
    after_byte-IsLatin b (b ∷ unescape_from 0 s) (unescape_from 3 s) (octal_escape s)
      (small, unescape_from-IsLatin 0 s h) (unescape_from-IsLatin 3 s h)
      (λ c e. octal_escape-lt s e)

unescape-IsLatin : (s : Text) → IsLatin (unescape s)
unfolding unescape
unescape-IsLatin s = unescape_from-IsLatin 0 (as_bytes s) (as_bytes-IsLatin s)

abbrev PointsAreLatin : List MountRow → Type 0
PointsAreLatin = All (λ r. IsLatin r.point)

row_of_words-IsLatin :
    (left right : List Text) {row : MountRow}
    → row_of_words left right ≡ some row
    → IsLatin row.point
unfolding row_of_words
row_of_words-IsLatin (_ ∷ _ ∷ devno ∷ root ∷ point ∷ _) (fstype ∷ source ∷ super ∷ _) h =
    subst IsLatin (ground arith) (unescape-IsLatin point)
row_of_words-IsLatin _ _ h = cc

parse_row-IsLatin : (line : Text) {row : MountRow} → parse_row line ≡ some row → IsLatin row.point
unfolding parse_row
parse_row-IsLatin line {row} h = of_halves (split_once (codes " - ") line) h
  where
    of_halves :
        (halves : Option (Text × Text))
        → (elim halves [
          | none ↦ none
          | some (left, right) ↦ row_of_words (split_whitespace left) (split_whitespace right)
        ])
          ≡ some row
        → IsLatin row.point
    of_halves none e = cc
    of_halves (some (left, right)) e =
        row_of_words-IsLatin (split_whitespace left) (split_whitespace right) e

with_row :
    (rows : List MountRow) (o : Option MountRow)
    → PointsAreLatin rows
    → ((row : MountRow) → o ≡ some row → IsLatin row.point)
    → PointsAreLatin (elim o [ some row ↦ row ∷ rows | none ↦ rows ])
with_row rows none hs h = hs
with_row rows (some row) hs h = (h row refl, hs)

parse_rows-IsLatin : (ls : List Text) → PointsAreLatin (parse_rows ls)
unfolding parse_rows
parse_rows-IsLatin [] = tt
parse_rows-IsLatin (line ∷ rest) =
    with_row (parse_rows rest) (parse_row line) (parse_rows-IsLatin rest)
      (λ row e. parse_row-IsLatin line e)

-- A text with a character that no byte stands for.
abbrev pub HasWide : Text → Type 0
HasWide s = any (leb 256) s ≡ true

not-IsLatin_of_HasWide : (s : Text) → IsLatin s → HasWide s → ⊥
not-IsLatin_of_HasWide [] h w = cc
not-IsLatin_of_HasWide (c ∷ s) (small, h) w = ground (arith, not-IsLatin_of_HasWide s h)

find_mount-HasWide :
    (rows : List MountRow) (mount : Text)
    → PointsAreLatin rows
    → HasWide mount
    → find_mount rows mount ≡ none
unfolding find_mount
find_mount-HasWide [] mount h w = refl
find_mount-HasWide (r ∷ rows) mount (latin, h) w =
    let other : r.point ≢ mount = λ e. not-IsLatin_of_HasWide mount (subst IsLatin e latin) w in
    ground (arith, text_eq-ne r.point mount other, find_mount-HasWide rows mount h w)

-- A mount point with a character above U+00FF is found in no mount table at all.
pub find_mount-parse_mountinfo :
    (table mount : Text) → HasWide mount → find_mount (parse_mountinfo table) mount ≡ none
unfolding parse_mountinfo
find_mount-parse_mountinfo table mount w =
    find_mount-HasWide (parse_rows (lines table)) mount (parse_rows-IsLatin (lines table)) w
