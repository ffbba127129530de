-- ===== src/Text/FilePath/Parent.antt =====
-- `Path::parent`, and the sibling of a file whose name has a suffix more.
use one_drive_hydration.Prelude.{
  Bool, true, false, Option, none, some, List, [], ◌∷◌, ◌++◌, reverse, unwrap_or, ◌≡◌, refl,
  if◌then◌else◌,
}
use one_drive_hydration.Text.{Text, codes, split, text_eq}
use one_drive_hydration.Text.FilePath.{is_absolute, drop_skipped, join_parts, join}

-- A relative path that begins with the component `.`.
is_dotted : Text → Bool
unfolding is_absolute split text_eq
is_dotted s = elim (split 47 s) [ [] ↦ false | p ∷ ps ↦ text_eq p (codes ".") ]

-- The path of the parts that are left, which stand in reverse.
rebuild : Bool → Bool → List Text → Text
rebuild true dotted [] = codes "/"
rebuild false true [] = codes "."
rebuild false false [] = []
rebuild absolute dotted (p ∷ ps) = join_parts (reverse (p ∷ ps))

unfoldable pub parent : Text → Option Text
unfolding rebuild is_dotted drop_skipped is_absolute split join_parts
parent s = elim (drop_skipped (reverse (split 47 s))) [
  | [] ↦ if is_dotted s then some [] else none
  | last ∷ rest ↦ some (rebuild (is_absolute s) (is_dotted s) (drop_skipped rest))
]

unfoldable pub file_name : Text → Text
unfolding drop_skipped split
file_name s = elim (drop_skipped (reverse (split 47 s))) [ [] ↦ [] | last ∷ rest ↦ last ]

unfoldable pub with_suffix : Text → Text → Text
unfolding parent file_name join
with_suffix s suffix = join (unwrap_or (parent s) []) (file_name s ++ suffix)

parents :
    (parent (codes "/etc/x") ≡ some (codes "/etc"))
    × (parent (codes "/etc") ≡ some (codes "/"))
    × (parent (codes "/") ≡ none)
    × (parent (codes "./a") ≡ some (codes "."))
    × (parent (codes ".") ≡ some [])
    × (parent (codes "a") ≡ some [])
    × (with_suffix (codes "/etc/x") (codes ".tmp") ≡ codes "/etc/x.tmp")
unfolding with_suffix
parents = (refl, refl, refl, refl, refl, refl, refl)
