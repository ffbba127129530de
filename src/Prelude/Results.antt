-- ===== src/Prelude/Results.antt =====
-- `Result`, and the kinds of `std::io::Error` that the program tells apart.
use Prim.Native.Nat.{ℕ}
use mathlib.Core.Bool.{Bool, true, false}
use mathlib.Core.Option.{Option, none, some}

pub data Result {ℓ κ} (E : Type ℓ) (A : Type κ) : Type (ℓ ⊔ κ) where
  ok : A → Result E A
  err : E → Result E A

infixl 5 ◌>>=◌ ◌>>◌
abbrev pub ◌>>=◌ {ℓ κ μ} :
    {E : Type ℓ} {A : Type κ} {B : Type μ} → Result E A → (A → Result E B) → Result E B
ok a >>= f = f a
err e >>= f = err e

abbrev pub ◌>>◌ {ℓ κ} : {E : Type ℓ} {B : Type κ} → Result E (Unit {0}) → Result E B → Result E B
m >> k = m >>= λ _. k

abbrev pub ok? {ℓ κ} : {E : Type ℓ} {A : Type κ} → Result E A → Option A
ok? (ok a) = some a
ok? (err e) = none

abbrev pub is_ok {ℓ κ} : {E : Type ℓ} {A : Type κ} → Result E A → Bool
is_ok (ok a) = true
is_ok (err e) = false

-- `io::ErrorKind`; `unlisted` stands for the kinds that no code here names.
pub data ErrorKind : Type 0 where
  not_found permission_denied connection_refused not_connected timed_out : ErrorKind
  invalid_input invalid_data unexpected_eof other : ErrorKind
  unlisted : ℕ → ErrorKind
