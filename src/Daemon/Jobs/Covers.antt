-- ===== src/Daemon/Jobs/Covers.antt =====
-- Which paths a job is given.
use one_drive_hydration.Prelude.{
  ℕ, zero, suc, ◌<◌, ◌≤◌, ◌≡◌, refl, ◌∙◌, ap, Bool, true, false, not, ◌&&◌, List, [], ◌∷◌, any,
  length, Bool-cases, inl, inr, arith,
}
use one_drive_hydration.Text.{text_eq, text_eq-eq, text_eq_refl}
use one_drive_hydration.Text.FilePath.{texts_eq}
use one_drive_hydration.Daemon.Jobs.{topmost}
use one_drive_hydration.Daemon.Jobs.Paths.{
  PathParts, starts_at, sort_paths, dedup, contains, texts_eq-eq, contains-sort_paths,
  contains-dedup, contains-retain, any-contains,
}

starts_at_refl : (p : PathParts) → starts_at p p ≡ true
unfolding starts_at
starts_at_refl [] = refl
starts_at_refl (c ∷ p) = rw (text_eq_refl c) (starts_at_refl p)

starts_at_trans :
    (p q r : PathParts) → starts_at p q ≡ true → starts_at q r ≡ true → starts_at p r ≡ true
unfolding starts_at
starts_at_trans p q [] f g = refl
starts_at_trans p [] (c ∷ r) f g = cc
starts_at_trans [] (d ∷ q) (c ∷ r) f g = cc
starts_at_trans (e ∷ p) (d ∷ q) (c ∷ r) f g =
    let first : text_eq e d ≡ true = ground arith in
    let second : text_eq d c ≡ true = ground arith in
    let both : e ≡ c = text_eq-eq e d first ∙ text_eq-eq d c second in
    let rest : starts_at p r ≡ true = starts_at_trans p q r (ground arith) (ground arith) in
    rw (both, text_eq_refl c) rest

-- A path that lies below another is longer.
starts_at-length :
    (p q : PathParts) → starts_at p q ≡ true → texts_eq p q ≡ false → length q < length p
unfolding starts_at texts_eq
starts_at-length [] [] h d = cc
starts_at-length (c ∷ p) [] h d = omega arith
starts_at-length [] (c ∷ q) h d = cc
starts_at-length (d ∷ p) (c ∷ q) h other =
    let shorter : length q < length p = starts_at-length p q (ground arith) (ground arith) in
    omega arith

abbrev is_above : PathParts → PathParts → Bool
is_above p parent = not (texts_eq p parent) && starts_at p parent

abbrev kept : List PathParts → PathParts → Bool
kept paths p = not (any (is_above p) paths)

abbrev Covered : List PathParts → PathParts → Type 0
Covered paths p =
    (q : PathParts) × (contains q paths ≡ true) × (kept paths q ≡ true) × (starts_at p q ≡ true)

widened :
    (paths : List PathParts) (p parent : PathParts)
    → starts_at p parent ≡ true
    → Covered paths parent
    → Covered paths p
widened paths p parent above (q, there, is_kept, below) =
    (q, there, is_kept, starts_at_trans p parent q above below)

-- Every path has a kept one at or above it; `n` bounds its length.
kept-covers :
    (n : ℕ) (paths : List PathParts) (p : PathParts)
    → length p ≤ n
    → contains p paths ≡ true
    → Covered paths p
kept-covers zero paths p bound there = elim (Bool-cases (any (is_above p) paths)) [
  | inr e ↦ (p, there, ap not e, starts_at_refl p)
  | inl e ↦
      let (parent, is_there, above) = any-contains (is_above p) paths e in
      let less : length parent < length p =
        starts_at-length p parent (ground arith) (ground arith) in
      absurd (omega arith)
]
kept-covers (suc n) paths p bound there = elim (Bool-cases (any (is_above p) paths)) [
  | inr e ↦ (p, there, ap not e, starts_at_refl p)
  | inl e ↦
      let (parent, is_there, above) = any-contains (is_above p) paths e in
      let less : length parent < length p =
        starts_at-length p parent (ground arith) (ground arith) in
      widened paths p parent (ground arith) (kept-covers n paths parent (omega arith) is_there)
]

abbrev sorted : List PathParts → List PathParts
sorted paths = dedup (sort_paths paths)

contains-sorted :
    (p : PathParts) (paths : List PathParts) → contains p (sorted paths) ≡ contains p paths
contains-sorted p paths = contains-dedup p (sort_paths paths) ∙ contains-sort_paths p paths

contains-topmost :
    (p : PathParts) (paths : List PathParts)
    → contains p (topmost paths) ≡ (contains p paths && kept (sorted paths) p)
unfolding topmost
contains-topmost p paths =
    contains-retain (kept (sorted paths)) p (sorted paths)
    ∙ ap (λ b. b && kept (sorted paths) p) (contains-sorted p paths)

any-false :
    (f : PathParts → Bool) (p : PathParts) (ps : List PathParts)
    → any f ps ≡ false
    → contains p ps ≡ true
    → f p ≡ false
any-false f p [] h there = cc
any-false f p (q ∷ ps) h there =
    ground (arith, any-false f p ps, texts_eq-eq p q, λ (e : p ≡ q). ap f e)

-- What a job is given, of the paths that were chosen: some of them, none below another, and each
-- chosen path is one of them or below one.
abbrev pub IsTopmost : List PathParts → List PathParts → Type 0
IsTopmost chosen given =
    ((p : PathParts) → contains p given ≡ true → contains p chosen ≡ true)
    × ((p q : PathParts)
        → contains p given ≡ true
        → contains q given ≡ true
        → starts_at p q ≡ true
        → p ≡ q)
    × ((p : PathParts)
        → contains p chosen ≡ true
        → (q : PathParts) × (contains q given ≡ true) × (starts_at p q ≡ true))

pub topmost-IsTopmost : (paths : List PathParts) → IsTopmost paths (topmost paths)
topmost-IsTopmost paths = (
  λ p there. let e = contains-topmost p paths in ground arith,
  λ p q p_there q_there below.
      let e = contains-topmost p paths in
      let f = contains-topmost q paths in
      let not_above : is_above p q ≡ false =
        any-false (is_above p) q (sorted paths) (ground arith)
          (contains-sorted q paths ∙ ground arith) in
      texts_eq-eq p q (ground arith),
  λ p there.
      let (q, q_there, is_kept, below) =
        kept-covers (length p) (sorted paths) p (omega arith) (contains-sorted p paths ∙ there) in
      let e = contains-topmost q paths in
      let f = contains-sorted q paths in (q, ground arith, below),
)
