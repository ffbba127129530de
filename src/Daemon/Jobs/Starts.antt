-- ===== src/Daemon/Jobs/Starts.antt =====
-- When a job starts, and with what.
use one_drive_hydration.Prelude.{
  ◌≡◌, refl, Bool, true, false, not, ◌||◌, Option, none, some, List, [], ◌∷◌, is_empty, length, ltb,
  if◌then◌else◌, Result, ok, err, ErrorKind, arith, subst, ◌≢◌,
}
use one_drive_hydration.Text.{Text}
use one_drive_hydration.Text.FilePath.{texts_eq}
use one_drive_hydration.Daemon.Jobs.{
  Operation, Jobs, no_valid_choice, outside, already_running, StartError, operation_of, new_job,
  saturating_next, has_line_break, topmost, check_path, and_path, select_paths, begin, start_in,
  start_with, start,
}
use one_drive_hydration.Daemon.Jobs.Paths.{PathParts, starts_at}
use one_drive_hydration.Daemon.Jobs.Covers.{IsTopmost, topmost-IsTopmost}

if_err :
    {A : Type 0} (b : Bool) (e : StartError) (r : Result StartError A) (a : A)
    → (if b then err e else r) ≡ ok a
    → (b ≡ false) × (r ≡ ok a)
if_err true e r a h = cc
if_err false e r a h = (refl, h)

module _ (canonicalize : Text → Result ErrorKind PathParts) where
  -- A chosen path stands below the root, and is named on one line.
  abbrev pub IsInside : PathParts → Text → PathParts → Type 0
  IsInside root path p =
      (canonicalize path ≡ ok p)
      × (texts_eq p root ≡ false)
      × (starts_at p root ≡ true)
      × (has_line_break p ≡ false)

  abbrev pub AreInside : PathParts → List Text → List PathParts → Type 0
  AreInside root [] [] = Unit
  AreInside root (path ∷ paths) (p ∷ ps) = IsInside root path p × AreInside root paths ps
  AreInside root _ _ = ⊥

  check_path-IsInside :
      (root : PathParts) (path : Text) (r : Result ErrorKind PathParts) (p : PathParts)
      → canonicalize path ≡ r
      → check_path canonicalize root r ≡ ok p
      → IsInside root path p
  unfolding check_path
  check_path-IsInside root path (err e) p c h = cc
  check_path-IsInside root path (ok q) p c h =
      let (fine, e) =
        if_err (texts_eq q root || not (starts_at q root) || has_line_break q) outside (ok q) p h in
      let same : q ≡ p = cc in rw⁻¹ same (c, ground arith, ground arith, ground arith)

  and_path-ok :
      (r : Result StartError PathParts) (rest : Result StartError (List PathParts))
      (ps : List PathParts)
      → and_path canonicalize r rest ≡ ok ps
      → (q : PathParts) × (qs : List PathParts) × (r ≡ ok q) × (rest ≡ ok qs) × (ps ≡ q ∷ qs)
  unfolding and_path
  and_path-ok (err e) rest ps h = cc
  and_path-ok (ok q) (err e) ps h = cc
  and_path-ok (ok q) (ok qs) ps h = (q, qs, refl, refl, cc)

  select_paths-AreInside :
      (root : PathParts) (paths : List Text) (ps : List PathParts)
      → select_paths canonicalize root paths ≡ ok ps
      → AreInside root paths ps
  unfolding select_paths
  select_paths-AreInside root [] [] h = tt
  select_paths-AreInside root [] (p ∷ ps) h = cc
  select_paths-AreInside root (path ∷ paths) ps h =
      let (q, qs, here, there, whole) =
        and_path-ok (check_path canonicalize root (canonicalize path))
          (select_paths canonicalize root paths) ps h in
      rw whole (
        check_path-IsInside root path (canonicalize path) q refl here,
        select_paths-AreInside root paths qs there,
      )

  -- What a started job is given.
  abbrev pub IsStarted : Jobs → Text → List Text → Text → List PathParts → Jobs → Type 0
  IsStarted jobs root paths operation given started =
      (op : Operation) × (top : PathParts) × (chosen : List PathParts) × (operation_of operation
        ≡ some op)
      × (jobs.state.running ≡ false)
      × (started ≡ record { state = new_job (saturating_next jobs.state.id) op; cancel = false })
      × (canonicalize root ≡ ok top)
      × AreInside top paths chosen
      × (chosen ≢ [])
      × IsTopmost chosen given

  begin-ok :
      (jobs : Jobs) (op : Operation) (r : Result StartError (List PathParts))
      (given : List PathParts) (started : Jobs)
      → begin canonicalize jobs op r ≡ ok (given, started)
      → (chosen : List PathParts) × (r ≡ ok chosen)
        × (jobs.state.running ≡ false)
        × (topmost chosen ≡ given)
        × (started ≡ record { state = new_job (saturating_next jobs.state.id) op; cancel = false })
  unfolding begin
  begin-ok jobs op (err e) given started h = cc
  begin-ok jobs op (ok chosen) given started h =
      let (idle, e) = if_err jobs.state.running already_running _ (given, started) h in
      (chosen, refl, idle, cc, cc)

  filled :
      (root : PathParts) (paths : List Text) (ps : List PathParts)
      → is_empty paths ≡ false
      → AreInside root paths ps
      → ps ≢ []
  filled root [] ps h inside e = cc
  filled root (path ∷ paths) [] h inside e = absurd inside
  filled root (path ∷ paths) (p ∷ ps) h inside e = cc

  start_in-IsStarted :
      (jobs : Jobs) (root : Text) (paths : List Text) (operation : Text) (op : Operation)
      (r : Result ErrorKind PathParts) (given : List PathParts) (started : Jobs)
      → operation_of operation ≡ some op
      → is_empty paths ≡ false
      → canonicalize root ≡ r
      → start_in canonicalize jobs paths op r ≡ ok (given, started)
      → IsStarted jobs root paths operation given started
  unfolding start_in
  start_in-IsStarted jobs root paths operation op (err e) given started word some_paths c h = cc
  start_in-IsStarted jobs root paths operation op (ok top) given started word some_paths c h =
      let (chosen, all_fine, idle, tops, fresh) =
        begin-ok jobs op (select_paths canonicalize top paths) given started h in
      let inside = select_paths-AreInside top paths chosen all_fine in
      (
        op,
        top,
        chosen,
        word,
        idle,
        fresh,
        c,
        inside,
        filled top paths chosen some_paths inside,
        subst (IsTopmost chosen) tops (topmost-IsTopmost chosen),
      )

  start_with-IsStarted :
      (jobs : Jobs) (root : Text) (paths : List Text) (operation : Text) (o : Option Operation)
      (given : List PathParts) (started : Jobs)
      → operation_of operation ≡ o
      → start_with canonicalize jobs root paths o ≡ ok (given, started)
      → IsStarted jobs root paths operation given started
  unfolding start_with
  start_with-IsStarted jobs root paths operation none given started word h = cc
  start_with-IsStarted jobs root paths operation (some op) given started word h =
      let (few, e) =
        if_err (is_empty paths || ltb 1000 (length paths)) no_valid_choice
          (start_in canonicalize jobs paths op (canonicalize root)) (given, started) h in
      start_in-IsStarted jobs root paths operation op (canonicalize root) given started word
        (ground arith) refl e

  -- A job starts only while none runs. It then has the next id, nothing done and no error, and the cancel
  -- flag is cleared. Every chosen path stands below the root and is named on one line, and what the
  -- job is given are the topmost of them: none lies below another, and each chosen path is one of
  -- them or lies below one.
  pub start-IsStarted :
      (jobs : Jobs) (root : Text) (paths : List Text) (operation : Text) (given : List PathParts)
      (started : Jobs)
      → start canonicalize jobs root paths operation ≡ ok (given, started)
      → IsStarted jobs root paths operation given started
  unfolding start
  start-IsStarted jobs root paths operation given started h =
      start_with-IsStarted jobs root paths operation (operation_of operation) given started refl h
