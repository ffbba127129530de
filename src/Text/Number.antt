-- ===== src/Text/Number.antt =====
-- Numbers in decimal: `to_string` of an unsigned number, and `parse` into one of bounded width.
pub mod RoundTrip
pub mod Digits
use one_drive_hydration.Prelude.{
  ℕ, zero, suc, ◌+◌, ◌-◌, ◌*◌, ◌/◌, ◌%◌, Bool, ◌&&◌, Option, none, some, [], ◌∷◌, reverse, ltb, leb,
  ◌==◌, if◌then◌else◌,
}
use one_drive_hydration.Text.{Text}

unfoldable pub is_digit : ℕ → Bool
is_digit c = leb 48 c && leb c 57

-- The digits of a number, the last first, with as many rounds as the number allows.
unfoldable pub digits_reversed : ℕ → ℕ → Text
digits_reversed zero n = []
digits_reversed (suc fuel) n =
    let rest = digits_reversed fuel (n / 10) in
    if ltb n 10 then (48 + n) ∷ [] else (48 + n % 10) ∷ rest

-- `to_string` of an unsigned number; twenty rounds are enough for 64 bits.
unfoldable pub decimal : ℕ → Text
unfolding digits_reversed
decimal n = reverse (digits_reversed 20 n)

-- `value * 10 + digit` over the digits; `none` at another character or past the width.
unfoldable pub parse_digits : ℕ → ℕ → Text → Option ℕ
unfolding is_digit
parse_digits limit value [] = some value
parse_digits limit value (c ∷ s) =
    let next = value * 10 + (c - 48) in
    let rest = parse_digits limit next s in if is_digit c && ltb next limit then rest else none

-- `parse::<uN>` for `limit = 2 ^ N`: an optional `+`, then at least one digit.
unfoldable pub parse_unsigned : ℕ → Text → Option ℕ
unfolding parse_digits
parse_unsigned limit [] = none
parse_unsigned limit (c ∷ []) = if c == 43 then none else parse_digits limit 0 (c ∷ [])
parse_unsigned limit (c ∷ d ∷ s) =
    if c == 43 then parse_digits limit 0 (d ∷ s) else parse_digits limit 0 (c ∷ d ∷ s)
