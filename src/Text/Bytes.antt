-- ===== src/Text/Bytes.antt =====
-- `str::as_bytes`: the UTF-8 form of a text. A byte is a number below 256.
use one_drive_hydration.Prelude.{
  ℕ, ◌+◌, ◌/◌, ◌%◌, ◌≡◌, refl, List, [], ◌∷◌, ◌++◌, arith, ltb, if◌then◌else◌, All, All-append, ◌<◌,
}
use one_drive_hydration.Text.{Text}

utf8_char : ℕ → List ℕ
utf8_char c =
    if ltb c 128
    then c ∷ []
    else if ltb c 2048
    then (192 + c / 64 % 32) ∷ (128 + c % 64) ∷ []
    else if ltb c 65536
    then (224 + c / 4096 % 16) ∷ (128 + c / 64 % 64) ∷ (128 + c % 64) ∷ []
    else (240 + c / 262144 % 8) ∷ (128 + c / 4096 % 64) ∷ (128 + c / 64 % 64) ∷ (128 + c % 64) ∷ []

unfoldable pub as_bytes : Text → List ℕ
unfolding utf8_char
as_bytes [] = []
as_bytes (c ∷ s) = utf8_char c ++ as_bytes s

abbrev pub IsAscii : Text → Type 0
IsAscii = All (λ c. c < 128)

pub as_bytes_ascii : (s : Text) → IsAscii s → as_bytes s ≡ s
unfolding as_bytes
as_bytes_ascii [] h = refl
as_bytes_ascii (c ∷ s) (small, h) = ground (arith, as_bytes_ascii s h)

-- A byte as a character is below 256.
abbrev pub IsLatin : Text → Type 0
IsLatin = All (λ c. c < 256)

utf8_char-IsLatin : (c : ℕ) → IsLatin (utf8_char c)
unfolding utf8_char
utf8_char-IsLatin c = ground arith

pub as_bytes-IsLatin : (s : Text) → IsLatin (as_bytes s)
unfolding as_bytes
as_bytes-IsLatin [] = tt
as_bytes-IsLatin (c ∷ s) =
    All-append (λ c. c < 256) (utf8_char c) (as_bytes s) (utf8_char-IsLatin c) (as_bytes-IsLatin s)
