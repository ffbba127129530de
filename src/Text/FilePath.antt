-- ===== src/Text/FilePath.antt =====
-- `std::path` on Unix, over the text of a path: `join`, `components`, `==`, `strip_prefix` and
-- `parent`. The text is kept, since the program compares and prints it.
pub mod Parent
use one_drive_hydration.Prelude.{
  ℕ, ◌≡◌, refl, Bool, true, false, not, ◌&&◌, ◌||◌, Option, none, some, List, [], ◌∷◌, ◌++◌, arith,
  reverse, ◌==◌, if◌then◌else◌, String, is_empty,
}
use one_drive_hydration.Text.{Text, codes, text_eq, text_eq_refl, split}

unfoldable pub is_absolute : Text → Bool
is_absolute [] = false
is_absolute (c ∷ s) = c == 47

ends_with_slash : Text → Bool
ends_with_slash [] = false
ends_with_slash (c ∷ []) = c == 47
ends_with_slash (c ∷ d ∷ s) = ends_with_slash (d ∷ s)

-- `Path::join`: an absolute argument replaces the path.
unfoldable pub join : Text → Text → Text
unfolding is_absolute ends_with_slash
join base [] = if is_empty base || ends_with_slash base then base else base ++ 47 ∷ []
join [] (c ∷ s) = c ∷ s
join (b ∷ base) (c ∷ s) =
    if is_absolute (c ∷ s)
    then c ∷ s
    else if ends_with_slash (b ∷ base)
    then (b ∷ base) ++ c ∷ s
    else (b ∷ base) ++ 47 ∷ c ∷ s

-- A part between slashes that is no component: an empty one, or `.`.
is_skipped : Text → Bool
unfolding text_eq
is_skipped part = text_eq part [] || text_eq part (codes ".")

unfoldable pub drop_skipped : List Text → List Text
unfolding is_skipped
drop_skipped [] = []
drop_skipped (p ∷ ps) = let rest = drop_skipped ps in if is_skipped p then rest else p ∷ ps

unfoldable pub keep_components : List Text → List Text
unfolding is_skipped
keep_components [] = []
keep_components (p ∷ ps) = let rest = keep_components ps in if is_skipped p then rest else p ∷ rest

-- The root component, the leading `.` of a relative path, and the other components.
first_kept : Bool → List Text → List Text
unfolding keep_components
first_kept absolute [] = []
first_kept absolute (p ∷ ps) =
    if not absolute && text_eq p (codes ".")
    then p ∷ keep_components ps
    else keep_components (p ∷ ps)

unfoldable pub components : Text → List Text
unfolding first_kept is_absolute split is_skipped
components s =
    if is_absolute s
    then codes "/" ∷ first_kept true (split 47 s)
    else first_kept false (split 47 s)

unfoldable pub texts_eq : List Text → List Text → Bool
unfolding text_eq
texts_eq [] [] = true
texts_eq [] (t ∷ ts) = false
texts_eq (s ∷ ss) [] = false
texts_eq (s ∷ ss) (t ∷ ts) = text_eq s t && texts_eq ss ts

pub texts_eq_refl : (ss : List Text) → texts_eq ss ss ≡ true
unfolding texts_eq
texts_eq_refl [] = refl
texts_eq_refl (s ∷ ss) = rw (text_eq_refl s) (texts_eq_refl ss)

-- `==` of two paths compares components.
unfoldable pub path_eq : Text → Text → Bool
unfolding components texts_eq text_eq
path_eq s t = texts_eq (components s) (components t)

unfoldable pub join_parts : List Text → Text
join_parts [] = []
join_parts (p ∷ []) = p
join_parts (p ∷ q ∷ ps) = p ++ 47 ∷ join_parts (q ∷ ps)

-- What is left of a path's parts when those components stand in front of it.
consume : List Text → List Text → Option (List Text)
consume [] parts = some parts
consume (c ∷ cs) [] = none
consume (c ∷ cs) (p ∷ ps) =
    let skip = consume (c ∷ cs) ps in
    let next = consume cs ps in if is_skipped p then skip else if text_eq p c then next else none

trim_parts : List Text → List Text
unfolding drop_skipped
trim_parts parts = reverse (drop_skipped (reverse (drop_skipped parts)))

abbrev tail_of : List Text → List Text
tail_of [] = []
tail_of (c ∷ cs) = cs

-- `strip_prefix` for two absolute paths or two relative ones that do not begin with `.`.
unfoldable pub strip_path : Text → Text → Option Text
unfolding components is_absolute consume trim_parts join_parts split
strip_path base s = elim (is_absolute base) [
  | true ↦ elim (is_absolute s) [
    | true ↦ elim (consume (tail_of (components base)) (split 47 s)) [
      | some parts ↦ some (join_parts (trim_parts parts))
      | none ↦ none
    ]
    | false ↦ none
  ]
  | false ↦ elim (is_absolute s) [
    | true ↦ elim (components base) [ [] ↦ some s | _ ↦ none ]
    | false ↦ elim (consume (components base) (split 47 s)) [
      | some parts ↦ some (join_parts (trim_parts parts))
      | none ↦ none
    ]
  ]
]
