-- ===== src/Daemon/Jobs/Files/Asks.antt =====
-- Which files are evicted and which are read.
use one_drive_hydration.Prelude.{
  ℕ, suc, ◌≡◌, refl, ◌∙◌, ap, sym, Bool, true, false, ◌&&◌, Option, none, some, List, [], ◌∷◌, ◌++◌,
  append_assoc, append-nil, ltb, length, if◌then◌else◌, ErrorKind, Bool-cases, inl, inr,
}
use one_drive_hydration.Text.{Text, codes, text_eq}
use one_drive_hydration.Text.Words.{trim}
use one_drive_hydration.Daemon.Control.{control_request}
use one_drive_hydration.Daemon.Jobs.{Operation, keep, free, JobError, answered, moved, unreadable}
use one_drive_hydration.Daemon.Jobs.Paths.{PathParts}
use one_drive_hydration.Daemon.Jobs.Files.{
  Worker, FileView, note_error, one_done, now_at, reply_bytes, is_free, count_bytes, take_reply,
  said, ask_file, by_mark, work_on_file, run_files, if_holds,
}

-- The commands and the files asked for so far.
abbrev asked : Worker → List Text × List PathParts
asked w = (w.sent, w.hydrated)

has_content : Option Bool → Bool
has_content (some false) = true
has_content _ = false

is_online_only : Option Bool → Bool
is_online_only (some true) = true
is_online_only _ = false

-- The requests of one turn, and those of all turns before the job is cancelled.
unfoldable pub requests :
    (PathParts → Text) → Operation → FileView → PathParts → List Text × List PathParts
unfolding has_content is_online_only
requests relative free view path =
    if view.stands && has_content view.mark
    then ((control_request view.socket (codes "evict " ++ relative path)).sent, [])
    else ([], [])
requests relative keep view path =
    if view.stands && is_online_only view.mark then ([], path ∷ []) else ([], [])

unfoldable pub both :
    List Text × List PathParts → List Text × List PathParts → List Text × List PathParts
both (a, p) (b, q) = (a ++ b, p ++ q)

unfoldable pub all_requests :
    (PathParts → Text)
    → Operation
    → (ℕ → FileView)
    → ℕ
    → List PathParts
    → List Text × List PathParts
unfolding requests both
all_requests relative operation sees i [] = ([], [])
all_requests relative operation sees i (path ∷ paths) =
    let later = all_requests relative operation sees (suc i) paths in
    if (sees i).cancelled then ([], []) else both (requests relative operation (sees i) path) later

both_nothing : (r : List Text × List PathParts) → both r ([], []) ≡ r
unfolding both
both_nothing (a, p) = ap (λ x. (x, p ++ [])) (append-nil a) ∙ ap (λ x. (a, x)) (append-nil p)

both_assoc : (r s t : List Text × List PathParts) → both (both r s) t ≡ both r (both s t)
unfolding both
both_assoc (a, p) (b, q) (c, u) =
    ap (λ x. (x, (p ++ q) ++ u)) (append_assoc a b c)
    ∙ ap (λ x. (a ++ (b ++ c), x)) (append_assoc p q u)

note_error-asked : (e : JobError) (w : Worker) → asked (note_error e w) ≡ asked w
unfolding note_error
note_error-asked e w = elim (Bool-cases (ltb (length w.job.errors) 100)) [
  | inl b ↦ rw b refl
  | inr b ↦ rw b refl
]

count_bytes-asked :
    (relative reply : Text) (o : Option ℕ) (w : Worker)
    → asked (count_bytes relative reply o w) ≡ asked w
unfolding count_bytes
count_bytes-asked relative reply (some n) w = refl
count_bytes-asked relative reply none w = note_error-asked (answered relative reply) w

take_reply-asked :
    (operation : Operation) (relative reply : Text) (w : Worker)
    → asked (take_reply operation relative reply w) ≡ asked w
unfolding take_reply
take_reply-asked operation relative reply w =
    elim (Bool-cases
      (is_free operation && text_eq (trim reply) (codes "kept: AlreadyDehydrated"))) [
        | inl b ↦ rw b refl
        | inr b ↦ rw b (count_bytes-asked relative reply (reply_bytes operation reply) w)
      ]

-- What a turn asks for if the file stands.
by_mark_requests :
    (PathParts → Text) → Operation → FileView → Option Bool → PathParts → List Text × List PathParts
by_mark_requests relative free view (some false) path =
    ((control_request view.socket (codes "evict " ++ relative path)).sent, [])
by_mark_requests relative keep view (some true) path = ([], path ∷ [])
by_mark_requests relative operation view mark path = ([], [])

by_mark_requests-requests :
    (relative : PathParts → Text) (operation : Operation) (view : FileView) (path : PathParts)
    (mark : Option Bool) (stands : Bool)
    → view.mark ≡ mark
    → view.stands ≡ stands
    → requests relative operation view path
      ≡ (if stands then by_mark_requests relative operation view mark path else ([], []))
unfolding requests by_mark_requests has_content is_online_only
by_mark_requests-requests relative keep view path none true m s = rw (m, s) refl
by_mark_requests-requests relative keep view path none false m s = rw (m, s) refl
by_mark_requests-requests relative keep view path (some true) true m s = rw (m, s) refl
by_mark_requests-requests relative keep view path (some true) false m s = rw (m, s) refl
by_mark_requests-requests relative keep view path (some false) true m s = rw (m, s) refl
by_mark_requests-requests relative keep view path (some false) false m s = rw (m, s) refl
by_mark_requests-requests relative free view path none true m s = rw (m, s) refl
by_mark_requests-requests relative free view path none false m s = rw (m, s) refl
by_mark_requests-requests relative free view path (some true) true m s = rw (m, s) refl
by_mark_requests-requests relative free view path (some true) false m s = rw (m, s) refl
by_mark_requests-requests relative free view path (some false) true m s = rw (m, s) refl
by_mark_requests-requests relative free view path (some false) false m s = rw (m, s) refl

module _ (io_text : ErrorKind → Text) (relative : PathParts → Text) where
  by_mark-asked :
      (operation : Operation) (path : PathParts) (mark : Option Bool) (view : FileView) (w : Worker)
      → asked (by_mark io_text operation path (relative path) mark view w)
        ≡ both (asked w) (by_mark_requests relative operation view mark path)
  unfolding by_mark ask_file by_mark_requests both
  by_mark-asked keep path none view w =
      note_error-asked (unreadable (relative path)) w ∙ sym (both_nothing (asked w))
  by_mark-asked free path none view w =
      note_error-asked (unreadable (relative path)) w ∙ sym (both_nothing (asked w))
  by_mark-asked keep path (some true) view w =
      take_reply-asked keep (relative path) (said io_text view.child)
        (record w { hydrated = w.hydrated ++ path ∷ [] })
      ∙ ap (λ x. (x, w.hydrated ++ path ∷ [])) (sym (append-nil w.sent))
  by_mark-asked keep path (some false) view w = sym (both_nothing (asked w))
  by_mark-asked free path (some true) view w = sym (both_nothing (asked w))
  by_mark-asked free path (some false) view w =
      let x = control_request view.socket (codes "evict " ++ relative path) in
      take_reply-asked free (relative path) (said io_text x.result)
        (record w { sent = w.sent ++ x.sent })
      ∙ ap (λ h. (w.sent ++ x.sent, h)) (sym (append-nil w.hydrated))

  work_on_file-asked :
      (operation : Operation) (path : PathParts) (view : FileView) (w : Worker)
      → asked (work_on_file io_text operation path (relative path) view w)
        ≡ both (asked w) (requests relative operation view path)
  unfolding work_on_file one_done
  work_on_file-asked operation path view w =
      if_holds (λ v. asked v ≡ both (asked w) (requests relative operation view path)) view.stands
        (one_done (
          by_mark io_text operation path (relative path) view.mark view (now_at (relative path) w)))
        (one_done (note_error (moved (relative path)) w))
        (λ b.
          by_mark-asked operation path view.mark view (now_at (relative path) w)
          ∙ ap (both (asked w))
              (sym (by_mark_requests-requests relative operation view path view.mark true refl b)))
        (λ b.
          note_error-asked (moved (relative path)) w
          ∙ sym (both_nothing (asked w))
          ∙ ap (both (asked w))
              (sym (by_mark_requests-requests relative operation view path view.mark false refl b)))

  -- The commands that the loop sends and the files that it has read are exactly these, in the order of
  -- the files, up to the turn at which the job is seen to be cancelled: for `free` the eviction of each
  -- file that stands and has content, and for `keep` each file that stands and has none.
  pub run_files-all_requests :
      (operation : Operation) (sees : ℕ → FileView) (i : ℕ) (paths : List PathParts) (w : Worker)
      → (
        (run_files io_text relative operation sees i paths w).sent,
        (run_files io_text relative operation sees i paths w).hydrated,
      )
        ≡ both (w.sent, w.hydrated) (all_requests relative operation sees i paths)
  unfolding run_files all_requests
  run_files-all_requests operation sees i [] w = sym (both_nothing (asked w))
  run_files-all_requests operation sees i (path ∷ paths) w =
      let next = work_on_file io_text operation path (relative path) (sees i) w in
      let later = all_requests relative operation sees (suc i) paths in
      go (sees i).cancelled next later (
        run_files-all_requests operation sees (suc i) paths next
        ∙ ap (λ r. both r later) (work_on_file-asked operation path (sees i) w)
        ∙ both_assoc (asked w) (requests relative operation (sees i) path) later)
    where
      go :
          (b : Bool) (next : Worker) (later : List Text × List PathParts)
          → asked (run_files io_text relative operation sees (suc i) paths next)
            ≡ both (asked w) (both (requests relative operation (sees i) path) later)
          → asked (if b then w else run_files io_text relative operation sees (suc i) paths next)
            ≡ both
                (asked w)
                (if b then ([], []) else both (requests relative operation (sees i) path) later)
      go true next later h = sym (both_nothing (asked w))
      go false next later h = h
