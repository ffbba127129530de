-- ===== src/Daemon/AuthState/Keeps.antt =====
-- What every move of the two threads keeps, `run` keeps.
use one_drive_hydration.Prelude.{
  ℕ, ◌≡◌, refl, Bool, true, false, Option, none, some, List, [], ◌∷◌, length, ltb, Bool-cases, inl,
  inr,
}
use one_drive_hydration.Daemon.AuthState.{
  Phase, Reply, replied, enrollment_completed, Publisher, max_watchers, Turn, loop_turn,
}
use one_drive_hydration.Daemon.AuthState.Accept.{
  Verb, status, watch, enrollment_complete, blank, Move, loop, connect, read_line, hang_up, verb_of,
  reply, welcome, join_watchers, answer, accept, step, run,
}

module _ (P : Publisher → Type 0)
    (serves : (o : Option ℕ) (p : Publisher) → P p → P (record p { serving = o }))
    (replies : (conn : ℕ) (r : Reply) (p : Publisher)
      → P p
      → P (record p { events = replied conn r ∷ p.events }))
    (welcomes : (sent : Bool) (conn : ℕ) (p : Publisher)
      → ltb (length p.watchers) max_watchers ≡ true
      → P p
      → P (welcome sent conn p))
    (completes : (p : Publisher)
      → P p
      → P (record p { restart_requested = true; events = enrollment_completed ∷ p.events }))
    (turns : (t : Turn) (f : Phase) (p : Publisher) → p.phase ≡ f → P p → P (loop_turn t f p)) where
  reply-Keeps : (sent : Bool) (conn : ℕ) (r : Reply) (p : Publisher) → P p → P (reply sent conn r p)
  unfolding reply
  reply-Keeps true conn r p c = replies conn r p c
  reply-Keeps false conn r p c = serves none p c

  join_watchers-Keeps :
      (sent : Bool) (conn : ℕ) (p : Publisher) → P p → P (join_watchers sent conn p)
  unfolding join_watchers
  join_watchers-Keeps sent conn p c = elim (Bool-cases (ltb (length p.watchers) max_watchers)) [
    | inl room ↦ rw room (welcomes sent conn p room c)
    | inr full ↦ rw full (serves none p c)
  ]

  answer-Keeps :
      (sent : Bool) (conn : ℕ) (verb : Verb) (p : Publisher) → P p → P (answer sent conn verb p)
  unfolding answer
  answer-Keeps sent conn status p c = reply-Keeps sent conn _ p c
  answer-Keeps sent conn watch p c = join_watchers-Keeps sent conn p c
  answer-Keeps sent conn enrollment_complete p c = reply-Keeps sent conn _ _ (completes p c)
  answer-Keeps sent conn blank p c = c
  answer-Keeps sent conn (Verb.other verb) p c = reply-Keeps sent conn _ p c

  accept-Keeps : (m : Move) (serving : Option ℕ) (p : Publisher) → P p → P (accept m serving p)
  unfolding accept
  accept-Keeps (connect conn) none p c = serves (some conn) p c
  accept-Keeps (connect conn) (some served) p c = c
  accept-Keeps (read_line sent l) none p c = c
  accept-Keeps (read_line sent l) (some conn) p c = answer-Keeps sent conn (verb_of l) p c
  accept-Keeps hang_up none p c = c
  accept-Keeps hang_up (some conn) p c = serves none p c
  accept-Keeps (loop t) serving p c = c

  step-Keeps : (m : Move) (p : Publisher) → P p → P (step m p)
  unfolding step
  step-Keeps (loop t) p c = turns t p.phase p refl c
  step-Keeps (connect conn) p c = accept-Keeps (connect conn) p.serving p c
  step-Keeps (read_line sent l) p c = accept-Keeps (read_line sent l) p.serving p c
  step-Keeps hang_up p c = accept-Keeps hang_up p.serving p c

  pub run-Keeps : (moves : List Move) (p : Publisher) → P p → P (run moves p)
  unfolding run
  run-Keeps [] p c = c
  run-Keeps (m ∷ moves) p c = run-Keeps moves (step m p) (step-Keeps m p c)
