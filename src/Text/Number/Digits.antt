-- ===== src/Text/Number/Digits.antt =====
-- What `to_string` of a number consists of.
use mathlib.Core.List.{reverse-append}
use one_drive_hydration.Prelude.{
  ℕ, zero, suc, ◌+◌, ◌/◌, ◌%◌, ◌≡◌, true, [], ◌∷◌, reverse, ltb, Bool-cases, inl, inr, arith, All,
  All-append,
}
use one_drive_hydration.Text.{Text}
use one_drive_hydration.Text.Number.{is_digit, digits_reversed, decimal}

abbrev pub AllDigits : Text → Type 0
AllDigits = All (λ c. is_digit c ≡ true)

digits_reversed-AllDigits : (fuel n : ℕ) → AllDigits (reverse (digits_reversed fuel n))
unfolding digits_reversed is_digit
digits_reversed-AllDigits zero n = tt
digits_reversed-AllDigits (suc fuel) n = elim (Bool-cases (ltb n 10)) [
  | inl e ↦ rw e (ground arith, tt)
  | inr e ↦
      rw (e, reverse-append ((48 + n % 10) ∷ []) (digits_reversed fuel (n / 10)))
        (All-append (λ c. is_digit c ≡ true) (reverse (digits_reversed fuel (n / 10)))
          ((48 + n % 10) ∷ []) (digits_reversed-AllDigits fuel (n / 10)) (ground arith, tt))
]

pub decimal-AllDigits : (n : ℕ) → AllDigits (decimal n)
unfolding decimal
decimal-AllDigits n = digits_reversed-AllDigits 20 n
