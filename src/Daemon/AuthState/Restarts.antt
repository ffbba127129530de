-- ===== src/Daemon/AuthState/Restarts.antt =====
-- Restarts for a sign-in that was stored in Secret Service.
use one_drive_hydration.Prelude.{
  ℕ, suc, ◌≤◌, ◌+◌, ◌≡◌, Bool, true, false, Option, none, some, List, [], ◌∷◌, Bool-cases, inl, inr,
  arith,
}
use one_drive_hydration.Daemon.AuthState.{
  CredentialState, unknown, healthy, unsaved, rejected, CredentialHealth, state, health_eq, Phase,
  sampling, culling, requests, files, broadcasting, Snapshot, is_snapshot, Reply, Event, replied,
  enrollment_completed, adopted_store, Publisher, start, Turn, sample_turn, request_turn,
  rejected_with_file, file_waits, judge_file, file_turn, loop_turn,
}
use one_drive_hydration.Daemon.AuthState.Keeps.{run-Keeps}
use one_drive_hydration.Daemon.AuthState.Accept.{Move, welcome, run}

unfoldable pub restarts : List Event → ℕ
restarts [] = 0
restarts (adopted_store ∷ past) = suc (restarts past)
restarts (_ ∷ past) = restarts past

unfoldable pub requested : List Event → ℕ
requested [] = 0
requested (enrollment_completed ∷ past) = suc (requested past)
requested (_ ∷ past) = requested past

abbrev owed : Bool → ℕ
owed true = 1
owed false = 0

-- Each restart, made or still owed, was asked for.
abbrev Asked : Publisher → Type 0
Asked p = restarts p.events + owed p.restart_requested ≤ requested p.events

request_turn-Asked : (p : Publisher) → Asked p → Asked (request_turn p)
unfolding request_turn restarts requested
request_turn-Asked p c = elim (Bool-cases p.restart_requested) [
  | inl e ↦ rw e (paid p.restart_requested e c)
  | inr e ↦ rw e (unpaid p.restart_requested e c)
]
  where
    paid :
        (b : Bool)
        → b ≡ true
        → restarts p.events + owed b ≤ requested p.events
        → suc (restarts p.events) + 0 ≤ requested p.events
    paid true e h = omega arith
    paid false e h = cc

    unpaid :
        (b : Bool)
        → b ≡ false
        → restarts p.events + owed b ≤ requested p.events
        → restarts p.events + 0 ≤ requested p.events
    unpaid true e h = cc
    unpaid false e h = h

rejected_with_file-Asked :
    (snap : Snapshot) (p : Publisher) → Asked p → Asked (rejected_with_file snap p)
unfolding rejected_with_file restarts requested
rejected_with_file-Asked snap p c = elim (Bool-cases (is_snapshot p.adopted snap)) [
  | inl e ↦ rw e c
  | inr e ↦
      rw e (elim (Bool-cases (is_snapshot p.pending snap)) [ inl f ↦ rw f c | inr f ↦ rw f c ])
]

file_waits-Asked : (p : Publisher) → Asked p → Asked (file_waits p)
unfolding file_waits restarts requested
file_waits-Asked p c = elim (Bool-cases p.announced_waiting_enrollment) [
  | inl e ↦ rw e c
  | inr e ↦ rw e c
]

judge_file-Asked :
    (s : CredentialState) (snapshot : Option Snapshot) (p : Publisher)
    → Asked p
    → Asked (judge_file s snapshot p)
unfolding judge_file
judge_file-Asked rejected (some snap) p c = rejected_with_file-Asked snap p c
judge_file-Asked unknown (some snap) p c = file_waits-Asked p c
judge_file-Asked healthy (some snap) p c = file_waits-Asked p c
judge_file-Asked unsaved (some snap) p c = file_waits-Asked p c
judge_file-Asked s none p c = c

file_turn-Asked :
    (enrollment : Option (Option Snapshot)) (p : Publisher)
    → Asked p
    → Asked (file_turn enrollment p)
unfolding file_turn restarts requested
file_turn-Asked none p c = c
file_turn-Asked (some snapshot) p c = judge_file-Asked (state p.health) snapshot _ c

sample_turn-Asked :
    (sampled : CredentialHealth) (p : Publisher) → Asked p → Asked (sample_turn sampled p)
unfolding sample_turn
sample_turn-Asked sampled p c = elim (Bool-cases (health_eq sampled p.health)) [
  | inl e ↦ rw e c
  | inr e ↦ rw e c
]

loop_turn-Asked : (t : Turn) (f : Phase) (p : Publisher) → Asked p → Asked (loop_turn t f p)
unfolding loop_turn
loop_turn-Asked t sampling p c = sample_turn-Asked t.sampled p c
loop_turn-Asked t (broadcasting s) p c = c
loop_turn-Asked t culling p c = c
loop_turn-Asked t requests p c = request_turn-Asked p c
loop_turn-Asked t files p c = file_turn-Asked t.enrollment p c

welcome-Asked : (sent : Bool) (conn : ℕ) (p : Publisher) → Asked p → Asked (welcome sent conn p)
unfolding welcome
welcome-Asked true conn p c = c
welcome-Asked false conn p c = c

owed_most : (b : Bool) → owed b ≤ 1
owed_most true = omega arith
owed_most false = omega arith

completed-Asked :
    (p : Publisher)
    → Asked p
    → Asked (record p { restart_requested = true; events = enrollment_completed ∷ p.events })
unfolding restarts requested
completed-Asked p c = let most = owed_most p.restart_requested in omega arith

replied-Asked :
    (conn : ℕ) (r : Reply) (p : Publisher)
    → Asked p
    → Asked (record p { events = replied conn r ∷ p.events })
unfolding restarts requested
replied-Asked conn r p c = c

-- Whatever the interleaving, from the start of the acceptor on: there are no more restarts for a
-- stored sign-in than there were `enrollment-complete` requests.
pub restarts_bounded :
    (h : CredentialHealth) (moves : List Move)
    → restarts (run moves (start h)).events ≤ requested (run moves (start h)).events
unfolding restarts requested
restarts_bounded h moves =
    let asked =
      run-Keeps Asked (λ o p c. c) replied-Asked (λ sent conn p room c. welcome-Asked sent conn p c)
        completed-Asked (λ t f p at c. loop_turn-Asked t f p c) moves (start h) (omega arith) in
    omega arith
