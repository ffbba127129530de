-- ===== src/Text/Assigned.antt =====
-- A token `name=value`, looked at from its name and from its first `=`.
use one_drive_hydration.Prelude.{
  ℕ, ◌≡◌, refl, Option, none, some, [], ◌∷◌, ◌++◌, ◌==◌, arith, if◌then◌else◌,
}
use one_drive_hydration.Text.{Text, codes, text_eq, strip_prefix, split_once, Avoids}

-- The part behind the first `=`, if the part before it is the name.
abbrev pub behind : Text → Option (Text × Text) → Option Text
behind name none = none
behind name (some (key, value)) = if text_eq key name then some value else none

abbrev consed : ℕ → Option (Text × Text) → Option (Text × Text)
consed c none = none
consed c (some (key, value)) = some (c ∷ key, value)

split_once-equals :
    (t : Text) (c : ℕ)
    → split_once (codes "=") (c ∷ t)
      ≡ (if 61 == c then some ([], t) else consed c (split_once (codes "=") t))
unfolding split_once strip_prefix
split_once-equals t c = ground arith

behind-consed-nil : (c : ℕ) (r : Option (Text × Text)) → behind [] (consed c r) ≡ none
unfolding text_eq
behind-consed-nil c none = refl
behind-consed-nil c (some (key, value)) = refl

behind-consed :
    (d : ℕ) (name : Text) (c : ℕ) (r : Option (Text × Text))
    → behind (d ∷ name) (consed c r) ≡ (if d == c then behind name r else none)
unfolding text_eq
behind-consed d name c none = ground arith
behind-consed d name c (some (key, value)) = ground arith

-- A name without `=` is followed by `=` exactly if the first `=` stands behind it.
pub strip_prefix-behind :
    (name token : Text)
    → Avoids (λ c. c == 61) name
    → strip_prefix (name ++ codes "=") token ≡ behind name (split_once (codes "=") token)
unfolding strip_prefix text_eq split_once
strip_prefix-behind [] [] h = refl
strip_prefix-behind [] (c ∷ t) h =
    ground (arith, split_once-equals t c, behind-consed-nil c (split_once (codes "=") t))
strip_prefix-behind (d ∷ name) [] h = refl
strip_prefix-behind (d ∷ name) (c ∷ t) h = ground (
  arith,
  h.0,
  split_once-equals t c,
  behind-consed d name c (split_once (codes "=") t),
  strip_prefix-behind name t h.1,
)
