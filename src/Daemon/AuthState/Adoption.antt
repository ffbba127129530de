-- ===== src/Daemon/AuthState/Adoption.antt =====
-- When `serve` hands an enrollment file to `adopt`.
use one_drive_hydration.Prelude.{
  ℕ, ◌≡◌, refl, ◌∙◌, ap, subst, Bool, true, false, ◌&&◌, ◌||◌, Option, none, some, List, [], ◌∷◌,
  ==_iff, Bool-cases, inl, inr, arith,
}
use one_drive_hydration.Daemon.AuthState.{
  CredentialState, unknown, healthy, unsaved, rejected, CredentialHealth, state, health_eq, Phase,
  sampling, culling, requests, files, broadcasting, Snapshot, is_snapshot, Reply, Event, replied,
  enrollment_completed, adopted_store, looked, adopted_file, Publisher, start, Turn, sample_turn,
  request_turn, rejected_with_file, file_waits, judge_file, file_turn, loop_turn,
}
use one_drive_hydration.Daemon.AuthState.Keeps.{run-Keeps}
use one_drive_hydration.Daemon.AuthState.Accept.{Move, welcome, run}

-- A look showed this file to a rejected sign-in, and no look since showed another state or no file.
unfoldable pub seen_since : Snapshot → List Event → Bool
seen_since s [] = false
seen_since s (looked rejected (some t) ∷ past) = is_snapshot (some t) s || seen_since s past
seen_since s (looked _ _ ∷ past) = false
seen_since s (_ ∷ past) = seen_since s past

-- The look just made and an earlier one showed this file to a rejected sign-in.
unfoldable pub seen_twice : Snapshot → List Event → Bool
unfolding seen_since
seen_twice s (looked rejected (some t) ∷ past) = is_snapshot (some t) s && seen_since s past
seen_twice s _ = false

unfoldable pub last_adopted : List Event → Option Snapshot
last_adopted [] = none
last_adopted (adopted_file s ∷ past) = some s
last_adopted (_ ∷ past) = last_adopted past

-- Each adoption of a file follows at once the second look at that file under a rejected sign-in, with
-- nothing but looks at some file under a rejected sign-in between the two looks, and the file is
-- another than the one adopted last.
unfoldable pub Settled : List Event → Type 0
unfolding seen_twice last_adopted
Settled [] = Unit
Settled (adopted_file s ∷ past) =
    (seen_twice s past ≡ true) × (is_snapshot (last_adopted past) s ≡ false) × Settled past
Settled (_ ∷ past) = Settled past

abbrev Pending : Option Snapshot → List Event → Type 0
Pending none events = Unit
Pending (some s) events = seen_since s events ≡ true

abbrev Sound : Publisher → Type 0
Sound p = Settled p.events × Pending p.pending p.events × (last_adopted p.events ≡ p.adopted)

is_snapshot_refl : (s : Snapshot) → is_snapshot (some s) s ≡ true
is_snapshot_refl (size, time) = rw ((==_iff size size).1 refl, (==_iff time time).1 refl) refl

-- An event that is neither a look nor an adoption.
Pending-pass :
    (o : Option Snapshot) (e : Event) (events : List Event)
    → ((s : Snapshot) → seen_since s (e ∷ events) ≡ seen_since s events)
    → Pending o events
    → Pending o (e ∷ events)
Pending-pass none e events same h = tt
Pending-pass (some s) e events same h = same s ∙ h

Pending-look :
    (o : Option Snapshot) (snap : Snapshot) (events : List Event)
    → Pending o events
    → Pending o (looked rejected (some snap) ∷ events)
unfolding seen_since
Pending-look none snap events h = tt
Pending-look (some s) snap events h = ground arith

Pending-seen :
    (o : Option Snapshot) (snap : Snapshot) (events : List Event)
    → is_snapshot o snap ≡ true
    → Pending o events
    → seen_since snap events ≡ true
Pending-seen none snap events e h = cc
Pending-seen (some (size, time)) (size', time') events e h =
    let one : size ≡ size' = ground arith in
    let two : time ≡ time' = ground arith in
    subst (λ t. seen_since (size', t) events ≡ true) two
      (subst (λ n. seen_since (n, time) events ≡ true) one h)

abbrev noted : CredentialState → Option Snapshot → Publisher → Publisher
noted s snapshot p = record p { phase = sampling; events = looked s snapshot ∷ p.events }

rejected_with_file-Sound :
    (snap : Snapshot) (p : Publisher)
    → Sound p
    → Sound (rejected_with_file snap (noted rejected (some snap) p))
unfolding rejected_with_file Settled seen_twice last_adopted seen_since
rejected_with_file-Sound snap p (settled, waits, last) =
    elim (Bool-cases (is_snapshot p.adopted snap)) [
      | inl e ↦ rw e (settled, Pending-look p.pending snap p.events waits, last)
      | inr e ↦ rw e (elim (Bool-cases (is_snapshot p.pending snap)) [
        | inl f ↦ rw f (
          (
            rw (is_snapshot_refl snap) (Pending-seen p.pending snap p.events f waits),
            ap (λ o. is_snapshot o snap) last ∙ e,
            settled,
          ),
          Pending-pass p.pending (adopted_file snap) (looked rejected (some snap) ∷ p.events)
              (λ s. refl) (Pending-look p.pending snap p.events waits),
          refl,
        )
        | inr f ↦ rw f (settled, rw (is_snapshot_refl snap) refl, last)
      ])
    ]

file_waits-Sound :
    (s : CredentialState) (snap : Snapshot) (p : Publisher)
    → Sound p
    → Sound (file_waits (noted s (some snap) p))
unfolding file_waits Settled last_adopted
file_waits-Sound s snap p (settled, waits, last) =
    elim (Bool-cases p.announced_waiting_enrollment) [
      | inl e ↦ rw e (settled, tt, last)
      | inr e ↦ rw e (settled, tt, last)
    ]

judge_file-Sound :
    (s : CredentialState) (snapshot : Option Snapshot) (p : Publisher)
    → Sound p
    → Sound (judge_file s snapshot (noted s snapshot p))
unfolding judge_file Settled last_adopted
judge_file-Sound rejected (some snap) p c = rejected_with_file-Sound snap p c
judge_file-Sound unknown (some snap) p c = file_waits-Sound unknown snap p c
judge_file-Sound healthy (some snap) p c = file_waits-Sound healthy snap p c
judge_file-Sound unsaved (some snap) p c = file_waits-Sound unsaved snap p c
judge_file-Sound s none p (settled, waits, last) = (settled, tt, last)

file_turn-Sound :
    (enrollment : Option (Option Snapshot)) (p : Publisher)
    → Sound p
    → Sound (file_turn enrollment p)
unfolding file_turn
file_turn-Sound none p c = c
file_turn-Sound (some snapshot) p c = judge_file-Sound (state p.health) snapshot p c

request_turn-Sound : (p : Publisher) → Sound p → Sound (request_turn p)
unfolding request_turn Settled last_adopted seen_since
request_turn-Sound p (settled, waits, last) = elim (Bool-cases p.restart_requested) [
  | inl e ↦ rw e (settled, Pending-pass p.pending adopted_store p.events (λ s. refl) waits, last)
  | inr e ↦ rw e (settled, waits, last)
]

sample_turn-Sound :
    (sampled : CredentialHealth) (p : Publisher) → Sound p → Sound (sample_turn sampled p)
unfolding sample_turn
sample_turn-Sound sampled p c = elim (Bool-cases (health_eq sampled p.health)) [
  | inl e ↦ rw e c
  | inr e ↦ rw e c
]

loop_turn-Sound : (t : Turn) (f : Phase) (p : Publisher) → Sound p → Sound (loop_turn t f p)
unfolding loop_turn
loop_turn-Sound t sampling p c = sample_turn-Sound t.sampled p c
loop_turn-Sound t (broadcasting s) p c = c
loop_turn-Sound t culling p c = c
loop_turn-Sound t requests p c = request_turn-Sound p c
loop_turn-Sound t files p c = file_turn-Sound t.enrollment p c

replied-Sound :
    (conn : ℕ) (r : Reply) (p : Publisher)
    → Sound p
    → Sound (record p { events = replied conn r ∷ p.events })
unfolding Settled last_adopted seen_since
replied-Sound conn r p (settled, waits, last) =
    (settled, Pending-pass p.pending (replied conn r) p.events (λ s. refl) waits, last)

completed-Sound :
    (p : Publisher)
    → Sound p
    → Sound (record p { restart_requested = true; events = enrollment_completed ∷ p.events })
unfolding Settled last_adopted seen_since
completed-Sound p (settled, waits, last) =
    (settled, Pending-pass p.pending enrollment_completed p.events (λ s. refl) waits, last)

welcome-Sound : (sent : Bool) (conn : ℕ) (p : Publisher) → Sound p → Sound (welcome sent conn p)
unfolding welcome
welcome-Sound true conn p c = c
welcome-Sound false conn p c = c

-- Whatever the interleaving, from the start of the acceptor on: each adoption of an enrollment file
-- comes right after a look that showed this file while the sign-in was rejected, an earlier look had
-- shown the same file, every look between the two showed some file while the sign-in was rejected,
-- and the file is not the one that was adopted last.
pub run-Settled : (h : CredentialHealth) (moves : List Move) → Settled (run moves (start h)).events
unfolding Settled last_adopted
run-Settled h moves =
    (run-Keeps Sound (λ o p c. c) replied-Sound (λ sent conn p room c. welcome-Sound sent conn p c)
      completed-Sound (λ t f p at c. loop_turn-Sound t f p c) moves (start h) (tt, tt, refl)).0
