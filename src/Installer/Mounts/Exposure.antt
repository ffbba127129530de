-- ===== src/Installer/Mounts/Exposure.antt =====
-- What counts as an exposure of the sync root, and what `exposures` lists.
use one_drive_hydration.Prelude.{
  ◌≡◌, refl, ◌∙◌, ap, sym, subst, ◌≢◌, ◌⊎◌, ◌↔◌, Bool, true, false, ◌||◌, Option, none, some, List,
  [], ◌∷◌, ◌++◌, ◌==◌, arith, any, Bool-cases, inl, inr,
}
use mathlib.Core.List.{Memᴰ}
use one_drive_hydration.Text.{
  Text, codes, text_eq, text_eq-eq, text_eq_refl, text_eq_iff, text_eq-ne, strip_prefix,
  strip_prefix-eq, strip_prefix-append,
}
use one_drive_hydration.Installer.Mounts.{
  MountRow, covers, exposes, exposed_points, insert_sorted, sort_dedup, exposures,
}

-- `outer` is the root, is `inner`, or is a directory above it: `inner` goes on with a slash.
abbrev pub IsAbove : Text → Text → Type 0
IsAbove outer inner =
    (outer ≡ codes "/") ⊎ (outer ≡ inner) ⊎ ((rest : Text) × (inner ≡ outer ++ 47 ∷ rest))

below :
    (outer inner : Text) (r : Option Text)
    → strip_prefix outer inner ≡ r
    → (elim r [ some (c ∷ rest) ↦ c == 47 | _ ↦ false ]) ≡ true
    → IsAbove outer inner
below outer inner none e h = cc
below outer inner (some []) e h = cc
below outer inner (some (c ∷ rest)) e h =
    let slash : c ≡ 47 = ground arith in
    inr (inr (rest, strip_prefix-eq outer inner e ∙ ap (λ d. outer ++ d ∷ rest) slash))

covers-IsAbove : (outer inner : Text) → covers outer inner ≡ true → IsAbove outer inner
unfolding covers
covers-IsAbove outer inner h = elim (Bool-cases (text_eq outer (codes "/"))) [
  | inl e ↦ inl (text_eq-eq outer _ e)
  | inr ne ↦ elim (Bool-cases (text_eq outer inner)) [
    | inl e ↦ inr (inl (text_eq-eq outer inner e))
    | inr nf ↦ below outer inner (strip_prefix outer inner) refl (rw (ne, nf) at h)
  ]
]

IsAbove-covers : (outer inner : Text) → IsAbove outer inner → covers outer inner ≡ true
unfolding covers
IsAbove-covers outer inner (inl e) = rw (e, text_eq_refl (codes "/"))
IsAbove-covers outer inner (inr (inl e)) = ground (arith, (text_eq_iff outer inner).1 e)
IsAbove-covers outer inner (inr (inr (rest, e))) =
    rw (e, strip_prefix-append outer (47 ∷ rest)) (ground arith)

-- Another mount of the same device, over the same files or over some of them.
abbrev pub Exposes : MountRow → MountRow → Type 0
Exposes ours r =
    (r.point ≢ ours.point)
    × (r.devno ≡ ours.devno)
    × (IsAbove r.root ours.root ⊎ IsAbove ours.root r.root)

exposes-Exposes : (ours r : MountRow) → exposes ours r ≡ true → Exposes ours r
unfolding exposes
exposes-Exposes ours r h = (
  (λ same. cc (absurd_test ((text_eq_iff r.point ours.point).1 same))),
  text_eq-eq r.devno ours.devno (ground arith),
  either (covers r.root ours.root) refl,
)
  where
    absurd_test : text_eq r.point ours.point ≡ true → false ≡ true
    absurd_test e = ground arith

    either :
        (b : Bool)
        → covers r.root ours.root ≡ b
        → IsAbove r.root ours.root ⊎ IsAbove ours.root r.root
    either true e = inl (covers-IsAbove r.root ours.root e)
    either false e = inr (covers-IsAbove ours.root r.root (ground arith))

Exposes-exposes : (ours r : MountRow) → Exposes ours r → exposes ours r ≡ true
unfolding exposes
Exposes-exposes ours r (other, device, inl a) = rw (
  text_eq-ne r.point ours.point other,
  (text_eq_iff r.devno ours.devno).1 device,
  IsAbove-covers r.root ours.root a,
)
Exposes-exposes ours r (other, device, inr a) =
    rw
      (
        text_eq-ne r.point ours.point other,
        (text_eq_iff r.devno ours.devno).1 device,
        IsAbove-covers ours.root r.root a,
      )
      (ground arith)

-- A text stands in the sorted list as it stands in the list.
any-insert_sorted :
    (p s : Text) (ts : List Text)
    → any (text_eq p) (insert_sorted s ts) ≡ (text_eq p s || any (text_eq p) ts)
unfolding insert_sorted
any-insert_sorted p s [] = refl
any-insert_sorted p s (t ∷ ts) =
    ground (arith, any-insert_sorted p s ts, text_eq-eq s t, text_eq_iff s t)

any-sort_dedup : (p : Text) (ss : List Text) → any (text_eq p) (sort_dedup ss) ≡ any (text_eq p) ss
unfolding sort_dedup
any-sort_dedup p [] = refl
any-sort_dedup p (s ∷ ss) =
    any-insert_sorted p s (sort_dedup ss) ∙ ap (λ b. text_eq p s || b) (any-sort_dedup p ss)

abbrev pub ExposedBy : MountRow → List MountRow → Text → Type 0
ExposedBy ours rows p = (r : MountRow) × Memᴰ r rows × Exposes ours r × (r.point ≡ p)

ExposedBy-cons :
    (ours r : MountRow) (rows : List MountRow) (p : Text)
    → ExposedBy ours rows p
    → ExposedBy ours (r ∷ rows) p
ExposedBy-cons ours r rows p (q, m, e, s) = (q, Memᴰ.tail m, e, s)

exposed_points-ExposedBy :
    (ours : MountRow) (rows : List MountRow) (p : Text)
    → any (text_eq p) (exposed_points ours rows) ≡ true
    → ExposedBy ours rows p
unfolding exposed_points
exposed_points-ExposedBy ours [] p h = cc
exposed_points-ExposedBy ours (r ∷ rows) p h = elim (Bool-cases (exposes ours r)) [
  | inr e ↦ ExposedBy-cons ours r rows p (exposed_points-ExposedBy ours rows p (rw e at h))
  | inl e ↦ elim (Bool-cases (text_eq p r.point)) [
    | inl same ↦ (r, Memᴰ.head refl, exposes-Exposes ours r e, sym (text_eq-eq p r.point same))
    | inr ne ↦ ExposedBy-cons ours r rows p (exposed_points-ExposedBy ours rows p (rw (e, ne) at h))
  ]
]

ExposedBy-exposed_points :
    (ours : MountRow) (rows : List MountRow) (r : MountRow)
    → Memᴰ r rows
    → exposes ours r ≡ true
    → any (text_eq r.point) (exposed_points ours rows) ≡ true
unfolding exposed_points
ExposedBy-exposed_points ours [] r m e = elim m [ ]
ExposedBy-exposed_points ours (q ∷ rows) r (Memᴰ.head same) e =
    rw (← same) (rw (e, text_eq_refl r.point))
ExposedBy-exposed_points ours (q ∷ rows) r (Memᴰ.tail m) e =
    ground (arith, ExposedBy-exposed_points ours rows r m e)

-- `exposures` lists a mount point exactly when the table has a row for it of the same device, at
-- another mount point, whose root is above the sync root's root in that filesystem or below it.
pub exposures_iff :
    (ours : MountRow) (rows : List MountRow) (p : Text)
    → (any (text_eq p) (exposures rows ours) ≡ true) ↔ ExposedBy ours rows p
unfolding exposures
exposures_iff ours rows p = (
  λ h. exposed_points-ExposedBy ours rows p (sym (any-sort_dedup p _) ∙ h),
  λ (r, m, e, s).
      any-sort_dedup p _
      ∙ subst (λ q. any (text_eq q) (exposed_points ours rows) ≡ true) s
          (ExposedBy-exposed_points ours rows r m (Exposes-exposes ours r e)),
)
