-- ===== src/Text/Words.antt =====
-- `char::is_whitespace`, `str::trim`, `str::split_whitespace` and `str::lines`.
use one_drive_hydration.Prelude.{
  ℕ, ◌≡◌, refl, Bool, true, ◌&&◌, ◌||◌, List, [], ◌∷◌, ◌++◌, append-nil, append_assoc, sym, reverse,
  leb, ◌==◌, if◌then◌else◌, ◌≢◌, ◌∙◌, ap,
}
use one_drive_hydration.Text.{Text, Avoids}

-- The code points of Unicode's `White_Space`.
unfoldable pub is_whitespace : ℕ → Bool
is_whitespace c =
    (leb 9 c && leb c 13)
    || c == 32
    || c == 133
    || c == 160
    || c == 5760
    || (leb 8192 c && leb c 8202)
    || c == 8232
    || c == 8233
    || c == 8239
    || c == 8287
    || c == 12288

abbrev pub NoSpace : Text → Type 0
NoSpace = Avoids is_whitespace

unfoldable pub trim_start : Text → Text
trim_start [] = []
trim_start (c ∷ s) = let rest = trim_start s in if is_whitespace c then rest else c ∷ s

unfoldable pub trim_end : Text → Text
unfolding trim_start
trim_end s = reverse (trim_start (reverse s))

unfoldable pub trim : Text → Text
unfolding trim_end
trim s = trim_end (trim_start s)

-- A word that has ended is emitted if it has a character.
abbrev pub emit : Text → List Text → List Text
emit [] words = words
emit (c ∷ w) words = (c ∷ w) ∷ words

unfoldable pub words_from : Text → Text → List Text
words_from cur [] = emit cur []
words_from cur (c ∷ s) =
    let cut = words_from [] s in
    let more = words_from (cur ++ c ∷ []) s in if is_whitespace c then emit cur cut else more

unfoldable pub split_whitespace : Text → List Text
unfolding words_from
split_whitespace s = words_from [] s

pub words_from-append :
    (cur w s : Text) → NoSpace w → words_from cur (w ++ s) ≡ words_from (cur ++ w) s
unfolding words_from
words_from-append cur [] s h = rw append-nil
words_from-append cur (c ∷ w) s h =
    rw h.0 (words_from-append (cur ++ c ∷ []) w s h.1 ∙ rw append_assoc)

pub words_from-space :
    (cur s : Text) (c : ℕ)
    → is_whitespace c ≡ true
    → words_from cur (c ∷ s) ≡ emit cur (words_from [] s)
unfolding words_from
words_from-space cur s c h = rw h

pub emit-cons : (w : Text) (words : List Text) → w ≢ [] → emit w words ≡ w ∷ words
emit-cons [] words h = absurd (h refl)
emit-cons (c ∷ w) words h = refl

-- A word, a space and the rest.
pub split_whitespace-cons :
    (w s : Text) (c : ℕ)
    → NoSpace w
    → w ≢ []
    → is_whitespace c ≡ true
    → split_whitespace (w ++ c ∷ s) ≡ w ∷ split_whitespace s
unfolding split_whitespace
split_whitespace-cons w s c h n space =
    words_from-append [] w (c ∷ s) h
    ∙ words_from-space w s c space
    ∙ emit-cons w (words_from [] s) n

pub split_whitespace_word : (w : Text) → NoSpace w → w ≢ [] → split_whitespace w ≡ w ∷ []
unfolding split_whitespace
split_whitespace_word w h n =
    ap (words_from []) (sym (append-nil w)) ∙ words_from-append [] w [] h ∙ emit-cons w [] n

unfoldable pub drop_cr : Text → Text
drop_cr [] = []
drop_cr (c ∷ s) = if c == 13 then s else c ∷ s

unfoldable pub strip_cr : Text → Text
unfolding drop_cr
strip_cr s = reverse (drop_cr (reverse s))

-- `lines`: a line ends at `\n`, and one `\r` in front of that goes too.
unfoldable pub lines_from : Text → Text → List Text
unfolding strip_cr
lines_from [] [] = []
lines_from (c ∷ cur) [] = (c ∷ cur) ∷ []
lines_from cur (c ∷ s) =
    let cut = lines_from [] s in
    let more = lines_from (cur ++ c ∷ []) s in if c == 10 then strip_cr cur ∷ cut else more

unfoldable pub lines : Text → List Text
unfolding lines_from
lines s = lines_from [] s
