-- ===== src/Installer/Mounts.antt =====
-- The mount table of crates/installer/src/probes.rs: parsing, lookup and exposures.
pub mod Escape
pub mod Exposure
use one_drive_hydration.Prelude.{
  ℕ, zero, suc, ◌+◌, ◌-◌, ◌*◌, ◌≡◌, refl, Bool, true, false, not, ◌&&◌, ◌||◌, Option, none, some,
  List, [], ◌∷◌, ◌++◌, ltb, leb, if◌then◌else◌, find, ◌==◌, Result, ok, err,
}
use one_drive_hydration.Text.{Text, codes, text_eq, starts_with, strip_prefix, split_once}
use one_drive_hydration.Text.Words.{split_whitespace, lines}
use one_drive_hydration.Text.Bytes.{as_bytes}

pub record MountRow : Type 0 where
  pub devno : Text
  pub root : Text
  pub point : Text
  pub fstype : Text
  pub source : Text
  pub super_options : Text

is_octal : ℕ → Bool
is_octal c = leb 48 c && leb c 55

-- `u8::from_str_radix(.., 8)` of three characters: a `+` may stand in front, and 255 is the limit.
unfoldable pub octal_escape : List ℕ → Option ℕ
unfolding is_octal
octal_escape (a ∷ b ∷ c ∷ s) =
    let low = (b - 48) * 8 + (c - 48) in
    let value = (a - 48) * 64 + low in
    if is_octal b && is_octal c
    then if a == 43 then some low else if is_octal a && leb value 255 then some value else none
    else none
octal_escape _ = none

-- The loop over the bytes: each becomes the character of its number, and an escape skips three.
unfoldable pub unescape_from : ℕ → List ℕ → Text
unfolding octal_escape
unescape_from skip [] = []
unescape_from (suc skip) (b ∷ s) = unescape_from skip s
unescape_from zero (b ∷ s) =
    let plain = b ∷ unescape_from 0 s in
    let rest = unescape_from 3 s in
    if b == 92 then elim (octal_escape s) [ some c ↦ c ∷ rest | none ↦ plain ] else plain

unfoldable pub unescape : Text → Text
unfolding unescape_from as_bytes
unescape s = unescape_from 0 (as_bytes s)

-- The two halves of a line: at least five words before the separator and three after it.
row_of_words : List Text → List Text → Option MountRow
row_of_words (_ ∷ _ ∷ devno ∷ root ∷ point ∷ _) (fstype ∷ source ∷ super_options ∷ _) =
    some (record {
      devno = devno;
      root = unescape root;
      point = unescape point;
      fstype = fstype;
      source = unescape source;
      super_options = super_options;
    })
row_of_words _ _ = none

unfoldable pub parse_row : Text → Option MountRow
unfolding row_of_words
parse_row line = elim (split_once (codes " - ") line) [
  | none ↦ none
  | some (left, right) ↦ row_of_words (split_whitespace left) (split_whitespace right)
]

parse_rows : List Text → List MountRow
parse_rows [] = []
parse_rows (line ∷ rest) =
    let rows = parse_rows rest in elim (parse_row line) [ some row ↦ row ∷ rows | none ↦ rows ]

unfoldable pub parse_mountinfo : Text → List MountRow
unfolding parse_rows
parse_mountinfo text = parse_rows (lines text)

unfoldable pub find_mount : List MountRow → Text → Option MountRow
unfolding text_eq
find_mount rows path = find (λ r. text_eq r.point path) rows

-- `covers`: a root, or the same directory, or one above it.
unfoldable pub covers : Text → Text → Bool
unfolding text_eq strip_prefix
covers outer inner =
    if text_eq outer (codes "/") || text_eq outer inner
    then true
    else elim (strip_prefix outer inner) [ some (c ∷ rest) ↦ c == 47 | _ ↦ false ]

unfoldable pub exposes : MountRow → MountRow → Bool
exposes ours r =
    if text_eq r.point ours.point || not (text_eq r.devno ours.devno)
    then false
    else covers r.root ours.root || covers ours.root r.root

exposed_points : MountRow → List MountRow → List Text
exposed_points ours [] = []
exposed_points ours (r ∷ rows) =
    let rest = exposed_points ours rows in if exposes ours r then r.point ∷ rest else rest

-- `<` on `str`
text_lt : Text → Text → Bool
text_lt s [] = false
text_lt [] (d ∷ t) = true
text_lt (c ∷ s) (d ∷ t) = ltb c d || (c == d && text_lt s t)

-- `sort` and `dedup`: insertion that leaves an equal text out.
unfoldable pub insert_sorted : Text → List Text → List Text
unfolding text_lt
insert_sorted s [] = s ∷ []
insert_sorted s (t ∷ ts) =
    let rest = insert_sorted s ts in
    if text_eq s t then t ∷ ts else if text_lt s t then s ∷ t ∷ ts else t ∷ rest

unfoldable pub sort_dedup : List Text → List Text
sort_dedup [] = []
sort_dedup (s ∷ ss) = insert_sorted s (sort_dedup ss)

unfoldable pub exposures : List MountRow → MountRow → List Text
unfolding exposed_points
exposures rows ours = sort_dedup (exposed_points ours rows)
