-- ===== src/Daemon/Jobs/Worker/Ends.antt =====
-- How a job ends.
use one_drive_hydration.Prelude.{
  ℕ, zero, suc, ◌≤◌, ◌≡◌, refl, ◌∙◌, sym, Bool, true, false, not, List, [], ◌∷◌, ◌++◌, length,
  if◌then◌else◌, Result, ok, err, ErrorKind, ◌⊎◌, inl, inr, arith,
}
use one_drive_hydration.Text.{Text, codes, text_eq, starts_with}
use one_drive_hydration.Text.Words.{trim}
use one_drive_hydration.Daemon.Control.{control_request}
use one_drive_hydration.Daemon.Jobs.{Operation, keep, free, answered, job_failed, new_job}
use one_drive_hydration.Daemon.Jobs.Paths.{PathParts, sort_paths, dedup}
use one_drive_hydration.Daemon.Jobs.Files.{Worker, FileView, note_error}
use one_drive_hydration.Daemon.Jobs.Files.Counts.{Quiet, note_error-Quiet, run_files-Counted}
use one_drive_hydration.Daemon.Jobs.Worker.{
  PathView, Gathered, files, stopped, broken, relative_to, pin_command, pinned_word, files_below,
  by_pending, pinned, by_pin, path_turn, go_on, gather, with_exe, work_through, work,
}

either_way :
    (w : Worker) (b : Bool) (x y : Gathered × Worker)
    → Quiet w x.1
    → Quiet w y.1
    → Quiet w (if b then x else y).1
either_way w true x y f g = f
either_way w false x y f g = g

chained : (w v u : Worker) → Quiet w v → Quiet v u → Quiet w u
chained w v u (a, b, c) (d, e, f) = (d ∙ a, e ∙ b, λ h. f (c h))

by_pending-Quiet :
    (path : PathParts) (relative : Text) (view : PathView) (r : Result ErrorKind Text) (w : Worker)
    → Quiet w (by_pending path relative view r w).1
unfolding by_pending
by_pending-Quiet path relative view (err e) w = (refl, refl, λ h. h)
by_pending-Quiet path relative view (ok reply) w =
    either_way w (starts_with reply (codes "error:")) _ _
      (note_error-Quiet (answered relative reply) w) (refl, refl, λ h. h)

files_below-Quiet :
    (operation : Operation) (path : PathParts) (relative : Text) (view : PathView) (w : Worker)
    → Quiet w (files_below operation path relative view w).1
unfolding files_below
files_below-Quiet keep path relative view w =
    let x = control_request view.socket (codes "pending " ++ relative) in
    by_pending-Quiet path relative view x.result (record w { sent = w.sent ++ x.sent })
files_below-Quiet free path relative view w = (refl, refl, λ h. h)

by_pin-Quiet :
    (operation : Operation) (path : PathParts) (relative : Text) (view : PathView)
    (r : Result ErrorKind Text) (w : Worker)
    → Quiet w (by_pin operation path relative view r w).1
unfolding by_pin pinned
by_pin-Quiet operation path relative view (err e) w = (refl, refl, λ h. h)
by_pin-Quiet operation path relative view (ok reply) w =
    either_way w (not (text_eq (trim reply) (pinned_word operation)))
      (files [], note_error (answered relative reply) w) (pinned operation path relative view w)
      (note_error-Quiet (answered relative reply) w)
      (either_way w (not view.is_dir) (files (path ∷ []), w)
        (files_below operation path relative view w) (refl, refl, λ h. h)
        (files_below-Quiet operation path relative view w))

path_turn-Quiet :
    (root : PathParts) (operation : Operation) (view : PathView) (path : PathParts) (w : Worker)
    → Quiet w (path_turn root operation view path w).1
unfolding path_turn
path_turn-Quiet root operation view path w =
    let relative = relative_to root path in
    let x = control_request view.socket (pin_command operation ++ relative) in
    let v : Worker = record w { sent = w.sent ++ x.sent } in
    either_way w view.cancelled (stopped, w) (by_pin operation path relative view x.result v)
      (refl, refl, λ h. h) (by_pin-Quiet operation path relative view x.result v)

go_on-Quiet :
    (w : Worker) (found : Gathered) (v : Worker) (later : Gathered × Worker)
    → Quiet w v
    → Quiet v later.1
    → Quiet w (go_on found v later).1
unfolding go_on
go_on-Quiet w (files found) v later h g = chained w v later.1 h g
go_on-Quiet w stopped v later h g = h
go_on-Quiet w (broken e) v later h g = h

gather-Quiet :
    (root : PathParts) (operation : Operation) (sees : ℕ → PathView) (i : ℕ)
    (paths : List PathParts) (w : Worker)
    → Quiet w (gather root operation sees i paths w).1
unfolding gather
gather-Quiet root operation sees i [] w = (refl, refl, λ h. h)
gather-Quiet root operation sees i (path ∷ paths) w =
    let turn = path_turn root operation (sees i) path w in
    go_on-Quiet w turn.0 turn.1 (gather root operation sees (suc i) paths turn.1)
      (path_turn-Quiet root operation (sees i) path w)
      (gather-Quiet root operation sees (suc i) paths turn.1)

module _ (io_text : ErrorKind → Text) (current_exe : Result ErrorKind (Unit {0})) where
  -- The counters of a job that is over: all files are done, or it was seen to be cancelled, or the
  -- program did not learn its own name.
  abbrev pub Settled : (ℕ → FileView) → Worker → Type 0
  Settled sees w =
      (w.job.done ≤ w.job.total)
      × (length w.job.errors ≤ 100)
      × ((w.job.done ≡ w.job.total)
          ⊎ ((i : ℕ) × ((sees i).cancelled ≡ true))
          ⊎ ((e : ErrorKind) × (current_exe ≡ err e)))

  with_exe-Settled :
      (root : PathParts) (operation : Operation) (sees : ℕ → FileView) (todo : List PathParts)
      (r : Result ErrorKind (Unit {0})) (w : Worker)
      → current_exe ≡ r
      → w.job.done ≡ 0
      → length w.job.errors ≤ 100
      → Settled sees (
          with_exe io_text current_exe root operation sees todo r
            (record w { job = record w.job { total = length todo } }))
  unfolding with_exe
  with_exe-Settled root operation sees todo (ok _) w at none_done few =
      let (total, most, fewer, all_done) =
        run_files-Counted io_text (relative_to root) operation sees zero todo
          (record w { job = record w.job { total = length todo } }) in
      (omega arith, fewer few, elim all_done [ inl e ↦ inl (omega arith) | inr c ↦ inr (inl c) ])
  with_exe-Settled root operation sees todo (err e) w at none_done few =
      let (same, also, fewer) =
        note_error-Quiet (job_failed e) (record w { job = record w.job { total = length todo } }) in
      (omega arith, fewer few, inr (inr (e, at)))

  work_through-Settled :
      (root : PathParts) (operation : Operation) (sees : ℕ → FileView) (found : Gathered)
      (w : Worker)
      → w.job.done ≡ 0
      → w.job.total ≡ 0
      → length w.job.errors ≤ 100
      → Settled sees (work_through io_text current_exe root operation sees found w)
  unfolding work_through
  work_through-Settled root operation sees (files found) w none_done no_total few =
      with_exe-Settled root operation sees (dedup (sort_paths found)) current_exe w refl none_done
        few
  work_through-Settled root operation sees stopped w none_done no_total few =
      (omega arith, few, inl (none_done ∙ sym no_total))
  work_through-Settled root operation sees (broken e) w none_done no_total few =
      let (same, also, fewer) = note_error-Quiet (job_failed e) w in
      (omega arith, fewer few, inl (omega arith))

  -- A new job that is worked on ends, whatever is seen at its turns: it does not run any more, it has
  -- done no more files than its total, all of them unless it was seen to be cancelled at some file or
  -- the name of the running program could not be had, and it has at most a hundred errors.
  pub work-Settled :
      (root : PathParts) (operation : Operation) (sees_paths : ℕ → PathView) (sees : ℕ → FileView)
      (cancelled : Bool) (selected : List PathParts) (id : ℕ)
      → ((work io_text current_exe root operation sees_paths sees cancelled selected
            (record { job = new_job id operation; sent = []; hydrated = [] })).job.running
          ≡ false)
        × Settled sees (
            work io_text current_exe root operation sees_paths sees cancelled selected
              (record { job = new_job id operation; sent = []; hydrated = [] }))
  unfolding work new_job
  work-Settled root operation sees_paths sees cancelled selected id =
      let w : Worker = record { job = new_job id operation; sent = []; hydrated = [] } in
      let (done, total, few) = gather-Quiet root operation sees_paths zero selected w in
      (
        refl,
        work_through-Settled root operation sees
            (gather root operation sees_paths zero selected w).0
            (gather root operation sees_paths zero selected w).1 done total (few (omega arith)),
      )
