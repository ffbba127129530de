-- ===== src/Daemon/Bus/Keys.antt =====
-- The five names with a number in a state line, and the keys that they are read as.
use one_drive_hydration.Prelude.{
  ℕ, ◌≡◌, refl, sym, ◌∙◌, ap, Bool, true, false, ◌||◌, Option, none, some, List, [], ◌∷◌, ◌++◌, any,
  is_some, ◌==◌, if◌then◌else◌, Bool-cases, inl, inr, arith,
}
use one_drive_hydration.Text.{Text, codes, text_eq, text_eq-eq, strip_prefix, split_once, Avoids}
use one_drive_hydration.Text.Number.{parse_unsigned}
use one_drive_hydration.Text.Assigned.{behind, strip_prefix-behind}
use one_drive_hydration.Daemon.Bus.{
  Key, unsent_key, excluded_key, exposures_key, downloading_key, scanning_key, key_of, with_value,
  assignment_of, assignment,
}

-- A number of at most 64 bits.
abbrev pub number_in : Option Text → Option ℕ
number_in none = none
number_in (some value) = parse_unsigned 18446744073709551616 value

-- The number of a token `name=number`.
unfoldable pub value_of : Text → Text → Option ℕ
value_of name token = number_in (strip_prefix (name ++ codes "=") token)

-- The token gives a number to one of the five names.
unfoldable pub is_named : Text → Bool
unfolding value_of
is_named token =
    is_some (value_of (codes "unsent") token)
    || is_some (value_of (codes "excluded") token)
    || is_some (value_of (codes "exposures") token)
    || is_some (value_of (codes "downloading") token)
    || is_some (value_of (codes "scanning") token)

unfoldable pub key_eq : Key → Key → Bool
key_eq unsent_key unsent_key = true
key_eq excluded_key excluded_key = true
key_eq exposures_key exposures_key = true
key_eq downloading_key downloading_key = true
key_eq scanning_key scanning_key = true
key_eq _ _ = false

unfoldable pub value_for : Key → Option (Key × ℕ) → Option ℕ
unfolding key_eq
value_for key none = none
value_for key (some (k, v)) = if key_eq key k then some v else none

abbrev pub name_of : Key → Text
name_of unsent_key = codes "unsent"
name_of excluded_key = codes "excluded"
name_of exposures_key = codes "exposures"
name_of downloading_key = codes "downloading"
name_of scanning_key = codes "scanning"

Avoids-name_of : (key : Key) → Avoids (λ c. c == 61) (name_of key)
Avoids-name_of unsent_key = (refl, (refl, (refl, (refl, (refl, (refl, tt))))))
Avoids-name_of excluded_key = (refl, (refl, (refl, (refl, (refl, (refl, (refl, (refl, tt))))))))
Avoids-name_of exposures_key =
    (refl, (refl, (refl, (refl, (refl, (refl, (refl, (refl, (refl, tt)))))))))
Avoids-name_of downloading_key =
    (refl, (refl, (refl, (refl, (refl, (refl, (refl, (refl, (refl, (refl, (refl, tt)))))))))))
Avoids-name_of scanning_key = (refl, (refl, (refl, (refl, (refl, (refl, (refl, (refl, tt))))))))

-- A name is read as its key, and a key is read only from its name.
key_of-name_of : (key : Key) → key_of (name_of key) ≡ some key
unfolding key_of
key_of-name_of unsent_key = refl
key_of-name_of excluded_key = refl
key_of-name_of exposures_key = refl
key_of-name_of downloading_key = refl
key_of-name_of scanning_key = refl

key_of-name : (k : Text) (key : Key) → key_of k ≡ some key → k ≡ name_of key
unfolding key_of
key_of-name k unsent_key h = text_eq-eq k (codes "unsent") (ground arith)
key_of-name k excluded_key h = text_eq-eq k (codes "excluded") (ground arith)
key_of-name k exposures_key h = text_eq-eq k (codes "exposures") (ground arith)
key_of-name k downloading_key h = text_eq-eq k (codes "downloading") (ground arith)
key_of-name k scanning_key h = text_eq-eq k (codes "scanning") (ground arith)

name_of-eq : (a b : Key) → text_eq (name_of a) (name_of b) ≡ key_eq b a
unfolding key_eq text_eq
name_of-eq a b = ground arith

number_in-if :
    (b : Bool) (value : Text)
    → (if b then number_in (some value) else none) ≡ number_in (if b then some value else none)
number_in-if true value = refl
number_in-if false value = refl

by_key :
    (key : Key) (k value : Text) (o : Option Key)
    → key_of k ≡ o
    → value_for key (with_value o (number_in (some value)))
      ≡ number_in (if text_eq k (name_of key) then some value else none)
unfolding value_for with_value
by_key key k value none h = elim (Bool-cases (text_eq k (name_of key))) [
  | inl e ↦ cc (h, key_of-name_of key, text_eq-eq k (name_of key) e)
  | inr e ↦ rw e refl
]
by_key key k value (some other) h =
    let same : text_eq k (name_of key) ≡ key_eq key other =
      ap (λ t. text_eq t (name_of key)) (key_of-name k other h) ∙ name_of-eq other key in
    rw same
      (chosen (parse_unsigned 18446744073709551616 value) ∙ number_in-if (key_eq key other) value)
  where
    chosen :
        (n : Option ℕ)
        → value_for key (with_value (some other) n) ≡ (if key_eq key other then n else none)
    chosen n = ground arith

value_for-behind :
    (key : Key) (r : Option (Text × Text))
    → value_for key (assignment_of r) ≡ number_in (behind (name_of key) r)
unfolding assignment_of value_for
value_for-behind key none = refl
value_for-behind key (some (k, value)) = by_key key k value (key_of k) refl

pub value_for-value_of :
    (key : Key) (token : Text) → value_for key (assignment token) ≡ value_of (name_of key) token
unfolding assignment value_of
value_for-value_of key token =
    value_for-behind key (split_once (codes "=") token)
    ∙ ap number_in (sym (strip_prefix-behind (name_of key) token (Avoids-name_of key)))

assigned-some :
    (a : Option (Key × ℕ))
    → is_some a ≡ (
        is_some (value_for unsent_key a)
        || is_some (value_for excluded_key a)
        || is_some (value_for exposures_key a)
        || is_some (value_for downloading_key a)
        || is_some (value_for scanning_key a))
unfolding value_for key_eq
assigned-some none = refl
assigned-some (some (unsent_key, v)) = refl
assigned-some (some (excluded_key, v)) = refl
assigned-some (some (exposures_key, v)) = refl
assigned-some (some (downloading_key, v)) = refl
assigned-some (some (scanning_key, v)) = refl

abbrev pub assigns : Text → Bool
assigns token = is_some (assignment token)

assigns-is_named : (token : Text) → assigns token ≡ is_named token
unfolding is_named
assigns-is_named token =
    assigned-some (assignment token)
    ∙ simp (
      value_for-value_of unsent_key token,
      value_for-value_of excluded_key token,
      value_for-value_of exposures_key token,
      value_for-value_of downloading_key token,
      value_for-value_of scanning_key token,
    )

pub any-assigns : (tokens : List Text) → any assigns tokens ≡ any is_named tokens
any-assigns [] = refl
any-assigns (token ∷ tokens) =
    ap (λ b. b || any assigns tokens) (assigns-is_named token)
    ∙ ap (λ b. is_named token || b) (any-assigns tokens)
