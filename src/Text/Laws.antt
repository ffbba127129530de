-- ===== src/Text/Laws.antt =====
-- How `lines`, `split`, `trim` and `split_whitespace` read a text that was put together.
use one_drive_hydration.Prelude.{
  ℕ, ◌≡◌, refl, ◌∙◌, ap, sym, Bool, true, false, [], ◌∷◌, ◌++◌, append-nil, append_assoc, reverse,
  arith, ◌==◌, ==_iff, Bool-cases, inl, inr, All, All-append,
}
use mathlib.Core.List.{reverse-append, reverse-reverse}
use one_drive_hydration.Text.{Text, split_from, split, Avoids}
use one_drive_hydration.Text.Words.{
  is_whitespace, NoSpace, trim_start, trim, lines_from, lines, strip_cr,
}

pub split_from-append :
    (cur : Text) (sep : ℕ) (a b : Text)
    → split_from cur sep (a ++ sep ∷ b) ≡ split_from cur sep a ++ split_from [] sep b
unfolding split_from
split_from-append cur sep [] b = rw ((==_iff sep sep).1 refl)
split_from-append cur sep (c ∷ a) b = elim (Bool-cases (c == sep)) [
  | inl e ↦ rw e (ap (λ t. cur ∷ t) (split_from-append [] sep a b))
  | inr e ↦ rw e (split_from-append (cur ++ c ∷ []) sep a b)
]

-- The parts of `a`, then the parts of `b`.
pub split-append : (sep : ℕ) (a b : Text) → split sep (a ++ sep ∷ b) ≡ split sep a ++ split sep b
unfolding split
split-append sep a b = split_from-append [] sep a b

module _ (p : ℕ → Bool) where
  split_from-Avoids :
      (cur : Text) (sep : ℕ) (s : Text)
      → Avoids p cur
      → Avoids p s
      → All (Avoids p) (split_from cur sep s)
  unfolding split_from
  split_from-Avoids cur sep [] hc hs = (hc, tt)
  split_from-Avoids cur sep (c ∷ s) hc (hx, hs) = elim (Bool-cases (c == sep)) [
    | inl e ↦ rw e (hc, split_from-Avoids [] sep s tt hs)
    | inr e ↦ rw e (
        split_from-Avoids (cur ++ c ∷ []) sep s
          (All-append (λ d. p d ≡ false) cur (c ∷ []) hc (hx, tt)) hs)
  ]

  pub split-Avoids : (sep : ℕ) (s : Text) → Avoids p s → All (Avoids p) (split sep s)
  unfolding split
  split-Avoids sep s h = split_from-Avoids [] sep s tt h

abbrev newline : ℕ
newline = 10

lines_from-append :
    (cur a b : Text)
    → lines_from cur (a ++ newline ∷ b) ≡ lines_from cur (a ++ newline ∷ []) ++ lines_from [] b
unfolding lines_from
lines_from-append [] [] b = refl
lines_from-append (d ∷ cur) [] b = refl
lines_from-append [] (c ∷ a) b = elim (Bool-cases (c == newline)) [
  | inl e ↦ rw e (ap (λ t. strip_cr [] ∷ t) (lines_from-append [] a b))
  | inr e ↦ rw e (lines_from-append (c ∷ []) a b)
]
lines_from-append (d ∷ cur) (c ∷ a) b = elim (Bool-cases (c == newline)) [
  | inl e ↦ rw e (ap (λ t. strip_cr (d ∷ cur) ∷ t) (lines_from-append [] a b))
  | inr e ↦ rw e (lines_from-append (d ∷ cur ++ c ∷ []) a b)
]

-- After a newline the lines start afresh.
pub lines-append : (a b : Text) → lines (a ++ newline ∷ b) ≡ lines (a ++ newline ∷ []) ++ lines b
unfolding lines
lines-append a b = lines_from-append [] a b

lines_from-line :
    (cur w : Text)
    → Avoids (λ c. c == newline) w
    → lines_from cur (w ++ newline ∷ []) ≡ strip_cr (cur ++ w) ∷ []
unfolding lines_from
lines_from-line [] [] h = refl
lines_from-line (d ∷ cur) [] h = rw append-nil
lines_from-line [] (c ∷ w) (hx, h) = rw hx (lines_from-line (c ∷ []) w h)
lines_from-line (d ∷ cur) (c ∷ w) (hx, h) =
    rw hx (lines_from-line (d ∷ cur ++ c ∷ []) w h ∙ rw append_assoc)

reverse-cons : (a : Text) (c : ℕ) → reverse (c ∷ reverse a) ≡ a ++ c ∷ []
reverse-cons a c = ap reverse (sym (reverse-append a (c ∷ []))) ∙ reverse-reverse (a ++ c ∷ [])

ends_plainly : (a : Text) (c : ℕ) → (c == 13) ≡ false → strip_cr (a ++ c ∷ []) ≡ a ++ c ∷ []
unfolding strip_cr
ends_plainly a c h = rw (reverse-append a (c ∷ [])) (rw h (reverse-cons a c))

-- A line on its own, if it does not end in a carriage return.
pub lines_one :
    (a : Text) (c : ℕ)
    → Avoids (λ d. d == newline) (a ++ c ∷ [])
    → (c == 13) ≡ false
    → lines ((a ++ c ∷ []) ++ newline ∷ []) ≡ (a ++ c ∷ []) ∷ []
unfolding lines
lines_one a c h plain =
    lines_from-line [] (a ++ c ∷ []) h ∙ ap (λ t. t ∷ []) (ends_plainly a c plain)

-- Nothing to trim.
pub trim_trimmed :
    (b : ℕ) (a : Text) (c : ℕ)
    → is_whitespace b ≡ false
    → is_whitespace c ≡ false
    → trim (b ∷ a ++ c ∷ []) ≡ b ∷ a ++ c ∷ []
unfolding trim
trim_trimmed b a c hb hc =
    rw hb (rw (reverse-append (b ∷ a) (c ∷ [])) (rw hc (reverse-cons (b ∷ a) c)))

-- White space in front does not count.
pub trim_start-append :
    (indent : Text) (b : ℕ) (s : Text)
    → All (λ c. is_whitespace c ≡ true) indent
    → is_whitespace b ≡ false
    → trim_start (indent ++ b ∷ s) ≡ b ∷ s
unfolding trim_start
trim_start-append [] b s h hb = rw hb
trim_start-append (c ∷ indent) b s (hc, h) hb = rw hc (trim_start-append indent b s h hb)

pub NoSpace-newline : (s : Text) → NoSpace s → Avoids (λ c. c == newline) s
unfolding is_whitespace
NoSpace-newline [] h = tt
NoSpace-newline (c ∷ s) (hc, h) = (ground arith, NoSpace-newline s h)
