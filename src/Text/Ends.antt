-- ===== src/Text/Ends.antt =====
-- `str` operations that look from the end: `rsplit_once`, `strip_suffix`, `trim_end_matches`.
use one_drive_hydration.Prelude.{
  ℕ, ◌≡◌, ◌∙◌, ap, sym, Bool, true, false, Option, none, some, [], ◌∷◌, ◌++◌, reverse,
  if◌then◌else◌,
}
use mathlib.Core.List.{reverse-append, reverse-reverse}
use one_drive_hydration.Text.{Text, strip_prefix, strip_prefix-append}

last_or_first : Option (Text × Text) → Option Text → ℕ → Option (Text × Text)
last_or_first (some (a, b)) here c = some (c ∷ a, b)
last_or_first none (some r) c = some ([], r)
last_or_first none none c = none

-- `rsplit_once(p)` for a text `p` that is not empty: the last place where it stands.
unfoldable pub rsplit_once : Text → Text → Option (Text × Text)
unfolding last_or_first
rsplit_once p [] = none
rsplit_once p (c ∷ s) = last_or_first (rsplit_once p s) (strip_prefix p (c ∷ s)) c

unfoldable pub reversed : Option Text → Option Text
reversed none = none
reversed (some s) = some (reverse s)

unfoldable pub strip_suffix : Text → Text → Option Text
unfolding reversed
strip_suffix p s = reversed (strip_prefix (reverse p) (reverse s))

pub strip_suffix-append : (s p : Text) → strip_suffix p (s ++ p) ≡ some s
unfolding strip_suffix
strip_suffix-append s p =
    ap (λ t. reversed (strip_prefix (reverse p) t)) (reverse-append s p)
    ∙ ap reversed (strip_prefix-append (reverse p) (reverse s))
    ∙ ap some (reverse-reverse s)

-- `trim_start_matches` and `trim_end_matches` of a set of characters.
unfoldable pub trim_start_matches : (ℕ → Bool) → Text → Text
trim_start_matches p [] = []
trim_start_matches p (c ∷ s) = let rest = trim_start_matches p s in if p c then rest else c ∷ s

unfoldable pub trim_end_matches : (ℕ → Bool) → Text → Text
unfolding trim_start_matches
trim_end_matches p s = reverse (trim_start_matches p (reverse s))

-- Text that ends in another character stays whole when a run of matches behind it goes.
pub trim_end_matches-append :
    (p : ℕ → Bool) (s : Text) (d c : ℕ)
    → p d ≡ false
    → p c ≡ true
    → trim_end_matches p ((s ++ d ∷ []) ++ c ∷ []) ≡ s ++ d ∷ []
unfolding trim_end_matches trim_start_matches
trim_end_matches-append p s d c keep go = rw (reverse-append (s ++ d ∷ []) (c ∷ [])) (
    rw (go, reverse-append s (d ∷ []))
      (rw keep (ap reverse (sym (reverse-append s (d ∷ []))) ∙ reverse-reverse (s ++ d ∷ []))))
