-- ===== src/Text/Number/RoundTrip.antt =====
-- A number that is printed in decimal is read back.
use native.Mathlib.Nat.{pow-suc}
use mathlib.Core.List.{reverse-append, reverse-reverse}
use one_drive_hydration.Prelude.{
  ℕ, zero, suc, ◌+◌, ◌-◌, ◌*◌, ◌/◌, ◌%◌, ◌^◌, ◌<◌, ◌≤◌, ◌≡◌, refl, sym, ◌∙◌, ap, ◌≢◌, false, ◌&&◌,
  Option, none, some, [], ◌∷◌, ◌++◌, reverse, ltb, ◌==◌, ==_iff, Bool-cases, inl, inr, arith,
}
use one_drive_hydration.Text.{Text}
use one_drive_hydration.Text.Number.{
  is_digit, digits_reversed, decimal, parse_digits, parse_unsigned,
}

and_then : Option ℕ → (ℕ → Option ℕ) → Option ℕ
and_then none f = none
and_then (some v) f = f v

parse_digits-append :
    (limit v : ℕ) (a b : Text)
    → parse_digits limit v (a ++ b)
      ≡ and_then (parse_digits limit v a) (λ w. parse_digits limit w b)
unfolding parse_digits and_then
parse_digits-append limit v [] b = refl
parse_digits-append limit v (c ∷ a) b =
    elim (Bool-cases (is_digit c && ltb (v * 10 + (c - 48)) limit)) [
      | inl e ↦ rw e (parse_digits-append limit (v * 10 + (c - 48)) a b)
      | inr e ↦ rw e refl
    ]

parse_digit :
    (limit v d : ℕ)
    → d < 10
    → v * 10 + d < limit
    → parse_digits limit v ((48 + d) ∷ []) ≡ some (v * 10 + d)
unfolding parse_digits is_digit
parse_digit limit v d small fits = ground arith

parse_digits-digits :
    (fuel n limit : ℕ)
    → n < 10 ^ fuel
    → n < limit
    → 0 < fuel
    → parse_digits limit 0 (reverse (digits_reversed fuel n)) ≡ some n
unfolding digits_reversed and_then
parse_digits-digits zero n limit small fits some_fuel = absurd (omega arith)
parse_digits-digits (suc fuel) n limit small fits some_fuel = elim (Bool-cases (ltb n 10)) [
  | inl e ↦
      let value : 0 * 10 + n ≡ n = omega arith in
      rw e (parse_digit limit 0 n (ground arith) (omega arith) ∙ ap some value)
  | inr e ↦
      let large : 10 ≤ n = ground arith in
      let shorter : n / 10 < 10 ^ fuel = omega (arith, pow-suc 10 fuel) in
      let value : n / 10 * 10 + n % 10 ≡ n = omega arith in
      rw e (
        ap (parse_digits limit 0)
          (reverse-append ((48 + n % 10) ∷ []) (digits_reversed fuel (n / 10)))
        ∙ parse_digits-append limit 0 (reverse (digits_reversed fuel (n / 10))) ((48 + n % 10) ∷ [])
        ∙ ap (λ o. and_then o (λ w. parse_digits limit w ((48 + n % 10) ∷ [])))
            (parse_digits-digits fuel (n / 10) limit shorter (omega arith)
              (positive_fuel fuel (n / 10) (omega arith) shorter))
        ∙ parse_digit limit (n / 10) (n % 10) (omega arith) (omega arith)
        ∙ ap some value)
]
  where
    positive_fuel : (f m : ℕ) → 0 < m → m < 10 ^ f → 0 < f
    positive_fuel zero m some_m h = omega arith
    positive_fuel (suc f) m some_m h = omega arith

parse_digits-sign : (limit v : ℕ) (s : Text) → parse_digits limit v (43 ∷ s) ≡ none
unfolding parse_digits is_digit
parse_digits-sign limit v s = refl

parse_unsigned-digits :
    (limit n : ℕ) (s : Text)
    → s ≢ []
    → parse_digits limit 0 s ≡ some n
    → parse_unsigned limit s ≡ some n
unfolding parse_unsigned
parse_unsigned-digits limit n [] filled h = absurd (filled refl)
parse_unsigned-digits limit n (c ∷ s) filled h = elim (Bool-cases (c == 43)) [
  | inl e ↦
      let sign : c ≡ 43 = (==_iff c 43).0 e in
      cc (h, parse_digits-sign limit 0 s, ap (λ d. parse_digits limit 0 (d ∷ s)) sign)
  | inr e ↦ unsigned s e h
]
  where
    unsigned :
        (t : Text)
        → (c == 43) ≡ false
        → parse_digits limit 0 (c ∷ t) ≡ some n
        → parse_unsigned limit (c ∷ t) ≡ some n
    unsigned [] e g = rw e g
    unsigned (d ∷ t) e g = rw e g

digits_reversed-filled : (fuel n : ℕ) → digits_reversed (suc fuel) n ≢ []
unfolding digits_reversed
digits_reversed-filled fuel n = ground arith

reverse-filled : (s : Text) → s ≢ [] → reverse s ≢ []
reverse-filled s filled h = filled (sym (reverse-reverse s) ∙ ap reverse h)

-- What `to_string` prints, `parse` reads, in any width that holds the number.
pub parse_unsigned-decimal :
    (limit n : ℕ) → n < 10 ^ 20 → n < limit → parse_unsigned limit (decimal n) ≡ some n
unfolding decimal
parse_unsigned-decimal limit n small fits =
    parse_unsigned-digits limit n (reverse (digits_reversed 20 n))
      (reverse-filled (digits_reversed 20 n) (digits_reversed-filled 19 n))
      (parse_digits-digits 20 n limit small fits (omega arith))
