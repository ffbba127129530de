-- ===== src/Daemon/AuthState/Informed.antt =====
-- No watcher misses a state, whatever the interleaving of the acceptor and the loop.
use one_drive_hydration.Prelude.{
  ℕ, ◌≤◌, ◌≡◌, refl, sym, subst, Bool, true, false, Option, none, some, List, [], ◌∷◌, ◌++◌, length,
  length-append, ltb, if◌then◌else◌, All, All-append, Bool-cases, inl, inr, arith,
}
use one_drive_hydration.Daemon.AuthState.{
  CredentialState, unknown, healthy, unsaved, rejected, CredentialHealth, state, state_eq,
  health_eq, Watcher, Phase, sampling, culling, requests, files, broadcasting, Snapshot,
  is_snapshot, Publisher, max_watchers, start, Turn, sample_turn, broadcast, cull, request_turn,
  rejected_with_file, file_waits, judge_file, file_turn, loop_turn,
}
use one_drive_hydration.Daemon.AuthState.Keeps.{run-Keeps}
use one_drive_hydration.Daemon.AuthState.Accept.{Move, welcome, run}

abbrev Told : CredentialState → List Watcher → Type 0
Told s watchers = All (λ w. w.told ≡ s) watchers

-- Every watcher was told the current state last, unless the loop is about to tell it to all.
abbrev pub Informed : Phase → CredentialHealth → List Watcher → Type 0
Informed (broadcasting s) h watchers = s ≡ state h
Informed _ h watchers = Told (state h) watchers

-- The loop's own copy is the shared one, nobody is misinformed, and there are at most eight watchers.
abbrev pub Consistent : Publisher → Type 0
Consistent p =
    (p.health ≡ p.current)
    × Informed p.phase p.current p.watchers
    × (length p.watchers ≤ max_watchers)

state_eq-eq : (s t : CredentialState) → state_eq s t ≡ true → s ≡ t
unfolding state_eq
state_eq-eq unknown unknown h = refl
state_eq-eq healthy healthy h = refl
state_eq-eq unsaved unsaved h = refl
state_eq-eq rejected rejected h = refl
state_eq-eq _ _ h = cc

broadcast-Told :
    (writable : ℕ → Bool) (s : CredentialState) (watchers : List Watcher)
    → Told s (broadcast writable s watchers)
unfolding broadcast
broadcast-Told writable s [] = tt
broadcast-Told writable s (w ∷ watchers) = elim (Bool-cases (writable w.conn)) [
  | inl e ↦ rw e (refl, broadcast-Told writable s watchers)
  | inr e ↦ rw e (broadcast-Told writable s watchers)
]

length-broadcast :
    (writable : ℕ → Bool) (s : CredentialState) (watchers : List Watcher)
    → length (broadcast writable s watchers) ≤ length watchers
unfolding broadcast
length-broadcast writable s [] = omega arith
length-broadcast writable s (w ∷ watchers) = ground (arith, length-broadcast writable s watchers)

cull-Told :
    (gone : ℕ → Bool) (s : CredentialState) (watchers : List Watcher)
    → Told s watchers
    → Told s (cull gone watchers)
unfolding cull
cull-Told gone s [] h = tt
cull-Told gone s (w ∷ watchers) (same, h) = elim (Bool-cases (gone w.conn)) [
  | inl e ↦ rw e (cull-Told gone s watchers h)
  | inr e ↦ rw e (same, cull-Told gone s watchers h)
]

length-cull :
    (gone : ℕ → Bool) (watchers : List Watcher) → length (cull gone watchers) ≤ length watchers
unfolding cull
length-cull gone [] = omega arith
length-cull gone (w ∷ watchers) = ground (arith, length-cull gone watchers)

abbrev next_phase : CredentialHealth → CredentialHealth → Phase
next_phase sampled before =
    if state_eq (state sampled) (state before) then culling else broadcasting (state sampled)

next_phase-Informed :
    (sampled before : CredentialHealth) (watchers : List Watcher)
    → Told (state before) watchers
    → Informed (next_phase sampled before) sampled watchers
next_phase-Informed sampled before watchers told =
    elim (Bool-cases (state_eq (state sampled) (state before))) [
      | inl e ↦
          rw e
            (subst (λ s. Told s watchers) (sym (state_eq-eq (state sampled) (state before) e)) told)
      | inr e ↦ rw e refl
    ]

sample_turn-Consistent :
    (sampled : CredentialHealth) (p : Publisher)
    → p.phase ≡ sampling
    → Consistent p
    → Consistent (sample_turn sampled p)
unfolding sample_turn
sample_turn-Consistent sampled p at (same, informed, few) =
    let told : Told (state p.current) p.watchers =
      subst (λ f. Informed f p.current p.watchers) at informed in
    elim (Bool-cases (health_eq sampled p.health)) [
      | inl e ↦ rw e (same, told, few)
      | inr e ↦ rw e (
        refl,
        next_phase-Informed sampled p.health p.watchers
            (subst (λ h. Told (state h) p.watchers) (sym same) told),
        few,
      )
    ]

request_turn-Consistent :
    (p : Publisher) → p.phase ≡ requests → Consistent p → Consistent (request_turn p)
unfolding request_turn
request_turn-Consistent p at (same, informed, few) =
    let told : Told (state p.current) p.watchers =
      subst (λ f. Informed f p.current p.watchers) at informed in
    elim (Bool-cases p.restart_requested) [
      | inl e ↦ rw e (same, told, few)
      | inr e ↦ rw e (same, told, few)
    ]

rejected_with_file-Consistent :
    (snap : Snapshot) (p : Publisher) → Consistent p → Consistent (rejected_with_file snap p)
unfolding rejected_with_file
rejected_with_file-Consistent snap p c = elim (Bool-cases (is_snapshot p.adopted snap)) [
  | inl e ↦ rw e c
  | inr e ↦
      rw e (elim (Bool-cases (is_snapshot p.pending snap)) [ inl f ↦ rw f c | inr f ↦ rw f c ])
]

file_waits-Consistent : (p : Publisher) → Consistent p → Consistent (file_waits p)
unfolding file_waits
file_waits-Consistent p c = elim (Bool-cases p.announced_waiting_enrollment) [
  | inl e ↦ rw e c
  | inr e ↦ rw e c
]

judge_file-Consistent :
    (s : CredentialState) (snapshot : Option Snapshot) (p : Publisher)
    → Consistent p
    → Consistent (judge_file s snapshot p)
unfolding judge_file
judge_file-Consistent rejected (some snap) p c = rejected_with_file-Consistent snap p c
judge_file-Consistent unknown (some snap) p c = file_waits-Consistent p c
judge_file-Consistent healthy (some snap) p c = file_waits-Consistent p c
judge_file-Consistent unsaved (some snap) p c = file_waits-Consistent p c
judge_file-Consistent s none p c = c

file_turn-Consistent :
    (enrollment : Option (Option Snapshot)) (p : Publisher)
    → p.phase ≡ files
    → Consistent p
    → Consistent (file_turn enrollment p)
unfolding file_turn
file_turn-Consistent none p at (same, informed, few) =
    (same, subst (λ f. Informed f p.current p.watchers) at informed, few)
file_turn-Consistent (some snapshot) p at (same, informed, few) =
    judge_file-Consistent (state p.health) snapshot _
      (same, subst (λ f. Informed f p.current p.watchers) at informed, few)

loop_turn-Consistent :
    (t : Turn) (f : Phase) (p : Publisher)
    → p.phase ≡ f
    → Consistent p
    → Consistent (loop_turn t f p)
unfolding loop_turn
loop_turn-Consistent t sampling p at c = sample_turn-Consistent t.sampled p at c
loop_turn-Consistent t (broadcasting s) p at (same, informed, few) =
    let due : s ≡ state p.current = subst (λ f. Informed f p.current p.watchers) at informed in
    (
      same,
      subst (λ x. Told x (broadcast t.writable s p.watchers)) due
          (broadcast-Told t.writable s p.watchers),
      (let shrunk = length-broadcast t.writable s p.watchers in omega arith),
    )
loop_turn-Consistent t culling p at (same, informed, few) = (
  same,
  cull-Told t.gone (state p.current) p.watchers
      (subst (λ f. Informed f p.current p.watchers) at informed),
  (let shrunk = length-cull t.gone p.watchers in omega arith),
)
loop_turn-Consistent t requests p at c = request_turn-Consistent p at c
loop_turn-Consistent t files p at c = file_turn-Consistent t.enrollment p at c

Informed-join :
    (f : Phase) (h : CredentialHealth) (watchers : List Watcher) (conn : ℕ)
    → Informed f h watchers
    → Informed f h (watchers ++ record { conn = conn; told = state h } ∷ [])
Informed-join (broadcasting s) h watchers conn due = due
Informed-join sampling h watchers conn told = All-append _ watchers _ told (refl, tt)
Informed-join culling h watchers conn told = All-append _ watchers _ told (refl, tt)
Informed-join requests h watchers conn told = All-append _ watchers _ told (refl, tt)
Informed-join files h watchers conn told = All-append _ watchers _ told (refl, tt)

welcome-Consistent :
    (sent : Bool) (conn : ℕ) (p : Publisher)
    → ltb (length p.watchers) max_watchers ≡ true
    → Consistent p
    → Consistent (welcome sent conn p)
unfolding welcome
welcome-Consistent false conn p room c = c
welcome-Consistent true conn p room (same, informed, few) = (
  same,
  Informed-join p.phase p.current p.watchers conn informed,
  (let longer = length-append p.watchers (record { conn = conn; told = state p.current } ∷ []) in
      ground arith),
)

-- Whatever the interleaving of the loop and the acceptor, from the start of the acceptor on: the
-- loop's health is the shared one, there are at most eight watchers, and the line that each watcher
-- was sent last carries the current state, but for the time between a change of the state and the
-- broadcast that is then due, and that broadcast carries the current state.
pub run-Consistent : (h : CredentialHealth) (moves : List Move) → Consistent (run moves (start h))
run-Consistent h moves =
    run-Keeps Consistent (λ o p c. c) (λ conn r p c. c) welcome-Consistent (λ p c. c)
      loop_turn-Consistent moves (start h) (refl, tt, omega arith)
