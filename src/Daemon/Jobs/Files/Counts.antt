-- ===== src/Daemon/Jobs/Files/Counts.antt =====
-- What the loop over the files leaves in the job, and what it asks for.
use one_drive_hydration.Prelude.{
  ℕ, suc, ◌+◌, ◌≤◌, ◌≡◌, refl, ◌∙◌, ap, Bool, true, false, ◌&&◌, Option, none, some, List, [], ◌∷◌,
  ◌++◌, ltb, length, ErrorKind, Bool-cases, ◌⊎◌, inl, inr, arith, length-append,
}
use one_drive_hydration.Text.{Text, codes, text_eq}
use one_drive_hydration.Text.Words.{trim}
use one_drive_hydration.Daemon.Control.{control_request}
use one_drive_hydration.Daemon.Jobs.{Operation, keep, free, JobError, answered, moved, unreadable}
use one_drive_hydration.Daemon.Jobs.Paths.{PathParts}
use one_drive_hydration.Daemon.Jobs.Files.{
  Worker, FileView, note_error, one_done, now_at, reply_bytes, is_free, count_bytes, take_reply,
  ask_file, by_mark, work_on_file, run_files, if_holds,
}

-- What a step leaves as it is, and that it keeps the bound on the errors.
abbrev pub Quiet : Worker → Worker → Type 0
Quiet w v =
    (v.job.done ≡ w.job.done)
    × (v.job.total ≡ w.job.total)
    × (length w.job.errors ≤ 100 → length v.job.errors ≤ 100)

pub note_error-Quiet : (e : JobError) (w : Worker) → Quiet w (note_error e w)
unfolding note_error
note_error-Quiet e w = elim (Bool-cases (ltb (length w.job.errors) 100)) [
  | inl b ↦
      let more : length (w.job.errors ++ e ∷ []) ≡ length w.job.errors + 1 =
        length-append w.job.errors (e ∷ []) in
      rw b (refl, refl, λ h. ground arith)
  | inr b ↦ rw b (refl, refl, λ h. h)
]

count_bytes-Quiet :
    (relative reply : Text) (o : Option ℕ) (w : Worker) → Quiet w (count_bytes relative reply o w)
unfolding count_bytes
count_bytes-Quiet relative reply (some n) w = (refl, refl, λ h. h)
count_bytes-Quiet relative reply none w = note_error-Quiet (answered relative reply) w

take_reply-Quiet :
    (operation : Operation) (relative reply : Text) (w : Worker)
    → Quiet w (take_reply operation relative reply w)
unfolding take_reply
take_reply-Quiet operation relative reply w =
    elim (Bool-cases
      (is_free operation && text_eq (trim reply) (codes "kept: AlreadyDehydrated"))) [
        | inl b ↦ rw b (refl, refl, λ h. h)
        | inr b ↦ rw b (count_bytes-Quiet relative reply (reply_bytes operation reply) w)
      ]

module _ (io_text : ErrorKind → Text) where
  by_mark-Quiet :
      (operation : Operation) (path : PathParts) (relative : Text) (o : Option Bool)
      (view : FileView) (w : Worker)
      → Quiet w (by_mark io_text operation path relative o view w)
  unfolding by_mark ask_file
  by_mark-Quiet operation path relative none view w = note_error-Quiet (unreadable relative) w
  by_mark-Quiet keep path relative (some true) view w =
      take_reply-Quiet keep relative _ (record w { hydrated = w.hydrated ++ path ∷ [] })
  by_mark-Quiet keep path relative (some false) view w = (refl, refl, λ h. h)
  by_mark-Quiet free path relative (some true) view w = (refl, refl, λ h. h)
  by_mark-Quiet free path relative (some false) view w =
      take_reply-Quiet free relative _ (record w {
        sent = w.sent ++ (control_request view.socket (codes "evict " ++ relative)).sent;
      })

  -- One more is done.
  abbrev Stepped : Worker → Worker → Type 0
  Stepped w v =
      (v.job.done ≡ w.job.done + 1)
      × (v.job.total ≡ w.job.total)
      × (length w.job.errors ≤ 100 → length v.job.errors ≤ 100)

  work_on_file-Stepped :
      (operation : Operation) (path : PathParts) (relative : Text) (view : FileView) (w : Worker)
      → Stepped w (work_on_file io_text operation path relative view w)
  unfolding work_on_file one_done
  work_on_file-Stepped operation path relative view w =
      if_holds (Stepped w) view.stands
        (one_done (by_mark io_text operation path relative view.mark view (now_at relative w)))
        (one_done (note_error (moved relative) w))
        (λ b.
          let (a, t, e) =
            by_mark-Quiet operation path relative view.mark view (now_at relative w) in
          (ap (λ n. n + 1) a, t, e))
        (λ b. let (a, t, e) = note_error-Quiet (moved relative) w in (ap (λ n. n + 1) a, t, e))

  -- The counters behind a loop over `n` files: all of them are done, or the job was cancelled.
  abbrev pub Counted : (ℕ → FileView) → ℕ → Worker → Worker → Type 0
  Counted sees n w v =
      (v.job.total ≡ w.job.total)
      × (v.job.done ≤ w.job.done + n)
      × (length w.job.errors ≤ 100 → length v.job.errors ≤ 100)
      × ((v.job.done ≡ w.job.done + n) ⊎ ((i : ℕ) × ((sees i).cancelled ≡ true)))

  one_more :
      (sees : ℕ → FileView) (n : ℕ) (w u v : Worker)
      → Stepped w u
      → Counted sees n u v
      → Counted sees (suc n) w v
  one_more sees n w u v (one, kept_total, few) (total, most, fewer, all_done) = (
    total ∙ kept_total,
    omega arith,
    λ h. fewer (few h),
    elim all_done [ inl e ↦ inl (omega arith) | inr c ↦ inr c ],
  )

  -- The loop over the files leaves the total, does no more than all files, and keeps at most a hundred
  -- errors. Each file is counted as done, unless the job is seen to be cancelled at some turn.
  pub run_files-Counted :
      (relative : PathParts → Text) (operation : Operation) (sees : ℕ → FileView) (i : ℕ)
      (paths : List PathParts) (w : Worker)
      → Counted sees (length paths) w (run_files io_text relative operation sees i paths w)
  unfolding run_files
  run_files-Counted relative operation sees i [] w = (refl, omega arith, λ h. h, inl (omega arith))
  run_files-Counted relative operation sees i (path ∷ paths) w =
      let next = work_on_file io_text operation path (relative path) (sees i) w in
      if_holds (Counted sees (suc (length paths)) w) (sees i).cancelled w
        (run_files io_text relative operation sees (suc i) paths next)
        (λ b. (refl, omega arith, λ h. h, inr (i, b)))
        (λ b.
          one_more sees (length paths) w next
            (run_files io_text relative operation sees (suc i) paths next)
            (work_on_file-Stepped operation path (relative path) (sees i) w)
            (run_files-Counted relative operation sees (suc i) paths next))
