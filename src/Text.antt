-- ===== src/Text.antt =====
-- Rust's `str` and `char` operations that the program calls, over the code points of a text.
-- A method that the standard library has keeps its name. `str` operations that count bytes are
-- used by the program on code points of one byte only, unless a module says otherwise.
pub mod Words
pub mod Laws
pub mod Number
pub mod Ends
pub mod Bytes
pub mod FilePath
pub mod Assigned
use Prim.Native.Char.{code}
use one_drive_hydration.Prelude.{
  ℕ, zero, suc, ◌+◌, ◌-◌, String, ◌≡◌, refl, ap, ◌≢◌, ◌↔◌, ◌⊎◌, inl, inr, Bool, true, false, not,
  ◌&&◌, ◌||◌, Option, none, some, List, [], ◌∷◌, ◌++◌, append-nil, append_assoc, ◌∙◌, map, reverse,
  arith, leb, ◌==◌, ==_iff, if◌then◌else◌, length, Bool-cases, All, is_empty, any,
}

abbrev pub Text : Type 0
Text = List ℕ

-- The code points of a literal.
abbrev pub codes : String → Text
codes String.[] = []
codes (String.◌∷◌ c s) = code c ∷ codes s

-- `==` on `str`
unfoldable pub text_eq : Text → Text → Bool
text_eq [] [] = true
text_eq [] (c ∷ t) = false
text_eq (c ∷ s) [] = false
text_eq (c ∷ s) (d ∷ t) = c == d && text_eq s t

pub text_eq-eq : (s t : Text) → text_eq s t ≡ true → s ≡ t
unfolding text_eq
text_eq-eq [] [] h = refl
text_eq-eq [] (c ∷ t) h = cc
text_eq-eq (c ∷ s) [] h = cc
text_eq-eq (c ∷ s) (d ∷ t) h = ground (arith, text_eq-eq s t)

pub text_eq_refl : (s : Text) → text_eq s s ≡ true
unfolding text_eq
text_eq_refl [] = refl
text_eq_refl (c ∷ s) = ground (arith, text_eq_refl s)

pub text_eq_iff : (s t : Text) → (text_eq s t ≡ true) ↔ (s ≡ t)
text_eq_iff s t = (text_eq-eq s t, λ e. rw e (text_eq_refl t))

pub text_eq-ne : (s t : Text) → s ≢ t → text_eq s t ≡ false
text_eq-ne s t h = ground (arith, text_eq-eq s t, h)

pub ne-text_eq : (s t : Text) → text_eq s t ≡ false → s ≢ t
ne-text_eq s t h e = cc (h, (text_eq_iff s t).1 e)

-- `strip_prefix`, and `starts_with` as its success
unfoldable pub strip_prefix : Text → Text → Option Text
strip_prefix [] s = some s
strip_prefix (c ∷ p) [] = none
strip_prefix (c ∷ p) (d ∷ s) = if c == d then strip_prefix p s else none

unfoldable pub starts_with : Text → Text → Bool
starts_with s [] = true
starts_with [] (c ∷ p) = false
starts_with (d ∷ s) (c ∷ p) = d == c && starts_with s p

pub strip_prefix-append : (p s : Text) → strip_prefix p (p ++ s) ≡ some s
unfolding strip_prefix
strip_prefix-append [] s = refl
strip_prefix-append (c ∷ p) s = ground (arith, strip_prefix-append p s)

pub strip_prefix-eq : (p s : Text) {r : Text} → strip_prefix p s ≡ some r → s ≡ p ++ r
unfolding strip_prefix
strip_prefix-eq [] s h = ground arith
strip_prefix-eq (c ∷ p) [] h = cc
strip_prefix-eq (c ∷ p) (d ∷ s) {r} h = ground (arith, strip_prefix-eq p s {r = r})

pub starts_with-append : (p s : Text) → starts_with (p ++ s) p ≡ true
unfolding starts_with
starts_with-append [] s = refl
starts_with-append (c ∷ p) s = ground (arith, starts_with-append p s)

pub starts_with-eq : (s p : Text) → starts_with s p ≡ true → (r : Text) × (s ≡ p ++ r)
unfolding starts_with
starts_with-eq s [] h = (s, refl)
starts_with-eq [] (c ∷ p) h = cc
starts_with-eq (d ∷ s) (c ∷ p) h =
    let tail : starts_with s p ≡ true = ground arith in
    let (r, e) = starts_with-eq s p tail in (r, ground arith)

-- `split_once(p)` for a text `p`: the first place where it stands.
unfoldable pub split_once : Text → Text → Option (Text × Text)
split_once p [] = elim (strip_prefix p []) [ some r ↦ some ([], r) | none ↦ none ]
split_once p (c ∷ s) =
    let later = split_once p s in
    elim (strip_prefix p (c ∷ s)) [
      | some r ↦ some ([], r)
      | none ↦ elim later [ some (a, b) ↦ some (c ∷ a, b) | none ↦ none ]
    ]

-- `split(c)` for a character: at least one part.
unfoldable pub split_from : Text → ℕ → Text → List Text
split_from cur sep [] = cur ∷ []
split_from cur sep (c ∷ s) =
    let cut = split_from [] sep s in
    let more = split_from (cur ++ c ∷ []) sep s in if c == sep then cur ∷ cut else more

unfoldable pub split : ℕ → Text → List Text
unfolding split_from
split sep s = split_from [] sep s

-- Texts that hold none of the characters that a test names.
abbrev pub Avoids : (ℕ → Bool) → Text → Type 0
Avoids p s = All (λ c. p c ≡ false) s

pub Avoids-any : (p : ℕ → Bool) (s : Text) → any p s ≡ false → Avoids p s
Avoids-any p [] h = tt
Avoids-any p (c ∷ s) h = (ground arith, Avoids-any p s (ground arith))

pub split_from-cons :
    (cur : Text) (sep : ℕ) (w s : Text)
    → Avoids (λ c. c == sep) w
    → split_from cur sep (w ++ sep ∷ s) ≡ (cur ++ w) ∷ split_from [] sep s
unfolding split_from
split_from-cons cur sep [] s h = rw (append-nil, (==_iff sep sep).1 refl)
split_from-cons cur sep (c ∷ w) s h =
    rw h.0 (split_from-cons (cur ++ c ∷ []) sep w s h.1 ∙ rw append_assoc)

-- `str::replace` for a pattern that is not empty; `skip` counts the matched characters to drop.
unfoldable pub replace_from : ℕ → Text → Text → Text → Text
unfolding starts_with
replace_from skip pattern to [] = []
replace_from (suc skip) pattern to (c ∷ s) = replace_from skip pattern to s
replace_from zero pattern to (c ∷ s) =
    let matched = to ++ replace_from (length pattern - 1) pattern to s in
    let other = c ∷ replace_from 0 pattern to s in
    if starts_with (c ∷ s) pattern then matched else other

unfoldable pub replace : Text → Text → Text → Text
unfolding replace_from
replace pattern to s = replace_from 0 pattern to s
