-- ===== src/Daemon/Jobs/Paths.antt =====
-- Lists of canonical paths: `starts_with`, and the sorting that the source uses of Rust's library.
use one_drive_hydration.Prelude.{
  ◌≡◌, refl, ◌∙◌, ap, Bool, true, false, ◌&&◌, ◌||◌, List, [], ◌∷◌, any, ltb, ◌==◌, if◌then◌else◌,
  arith, Bool-cases, inl, inr,
}
use one_drive_hydration.Text.{Text, text_eq, text_eq-eq}
use one_drive_hydration.Text.FilePath.{texts_eq, texts_eq_refl}

abbrev pub PathParts : Type 0
PathParts = List Text

-- `Path::starts_with`
unfoldable pub starts_at : PathParts → PathParts → Bool
unfolding text_eq
starts_at path [] = true
starts_at [] (c ∷ parent) = false
starts_at (d ∷ path) (c ∷ parent) = text_eq d c && starts_at path parent

-- The order of texts by their bytes, which is that of their code points.
text_le : Text → Text → Bool
text_le [] t = true
text_le (c ∷ s) [] = false
text_le (c ∷ s) (d ∷ t) = ltb c d || (c == d && text_le s t)

unfoldable pub path_le : PathParts → PathParts → Bool
unfolding text_le text_eq
path_le [] q = true
path_le (c ∷ p) [] = false
path_le (c ∷ p) (d ∷ q) = if text_eq c d then path_le p q else text_le c d

insert_path : PathParts → List PathParts → List PathParts
unfolding path_le
insert_path p [] = p ∷ []
insert_path p (q ∷ qs) = let rest = insert_path p qs in if path_le p q then p ∷ q ∷ qs else q ∷ rest

unfoldable pub sort_paths : List PathParts → List PathParts
unfolding insert_path
sort_paths [] = []
sort_paths (p ∷ ps) = insert_path p (sort_paths ps)

-- `Vec::dedup`: an element that equals the one before it is dropped.
unfoldable pub dedup : List PathParts → List PathParts
unfolding texts_eq
dedup [] = []
dedup (p ∷ []) = p ∷ []
dedup (p ∷ q ∷ ps) = let rest = dedup (q ∷ ps) in if texts_eq p q then rest else p ∷ rest

unfoldable pub retain : (PathParts → Bool) → List PathParts → List PathParts
retain f [] = []
retain f (p ∷ ps) = let rest = retain f ps in if f p then p ∷ rest else rest

abbrev pub contains : PathParts → List PathParts → Bool
contains p ps = any (λ q. texts_eq p q) ps

pub texts_eq-eq : (a b : List Text) → texts_eq a b ≡ true → a ≡ b
unfolding texts_eq
texts_eq-eq [] [] h = refl
texts_eq-eq [] (t ∷ b) h = cc
texts_eq-eq (s ∷ a) [] h = cc
texts_eq-eq (s ∷ a) (t ∷ b) h = ground (arith, text_eq-eq s t, texts_eq-eq a b)

contains-insert_path :
    (x p : PathParts) (ps : List PathParts)
    → contains x (insert_path p ps) ≡ (texts_eq x p || contains x ps)
unfolding insert_path
contains-insert_path x p [] = refl
contains-insert_path x p (q ∷ qs) = ground (arith, contains-insert_path x p qs)

pub contains-sort_paths :
    (x : PathParts) (ps : List PathParts) → contains x (sort_paths ps) ≡ contains x ps
unfolding sort_paths
contains-sort_paths x [] = refl
contains-sort_paths x (p ∷ ps) =
    contains-insert_path x p (sort_paths ps)
    ∙ ap (λ b. texts_eq x p || b) (contains-sort_paths x ps)

pub contains-dedup : (x : PathParts) (ps : List PathParts) → contains x (dedup ps) ≡ contains x ps
unfolding dedup
contains-dedup x [] = refl
contains-dedup x (p ∷ []) = refl
contains-dedup x (p ∷ q ∷ ps) = elim (Bool-cases (texts_eq p q)) [
  | inl e ↦ rw (e, texts_eq-eq p q e) (contains-dedup x (q ∷ ps) ∙ ground arith)
  | inr e ↦ rw e (ap (λ b. texts_eq x p || b) (contains-dedup x (q ∷ ps)))
]

pub contains-retain :
    (f : PathParts → Bool) (x : PathParts) (ps : List PathParts)
    → contains x (retain f ps) ≡ (contains x ps && f x)
unfolding retain
contains-retain f x [] = refl
contains-retain f x (p ∷ ps) =
    ground (arith, contains-retain f x ps, texts_eq-eq x p, λ (e : x ≡ p). ap f e)

-- An element that a test finds.
pub any-contains :
    (f : PathParts → Bool) (ps : List PathParts)
    → any f ps ≡ true
    → (p : PathParts) × (contains p ps ≡ true) × (f p ≡ true)
any-contains f [] h = cc
any-contains f (p ∷ ps) h = elim (Bool-cases (f p)) [
  | inl e ↦ (p, rw (texts_eq_refl p) refl, e)
  | inr e ↦ let (q, there, holds) = any-contains f ps (ground arith) in (q, ground arith, holds)
]
