-- ===== src/Daemon/Store/Deadline.antt =====
-- When the waiting for the secret store succeeds.
use one_drive_hydration.Prelude.{
  ℕ, zero, suc, ◌+◌, ◌*◌, ◌<◌, ◌≤◌, ◌≡◌, refl, sym, ap, subst, ◌↔◌, Bool, true, false, Option, none,
  some, List, [], leb, err, unwrap_or, is_ok, Bool-cases, inl, inr, arith,
}
use one_drive_hydration.Text.{Text}
use one_drive_hydration.Daemon.Store.{
  StoreSight, present, absent, is_present, Note, store_poll, Waited, noted, arrival, paused,
  after_look, wait_from, wait_for_store,
}

-- The store is seen at a look that comes less than one poll after the deadline.
abbrev pub SeenInTime : (ℕ → StoreSight) → ℕ → ℕ → ℕ → Type 0
SeenInTime look bound n waited =
    (j : ℕ) × (waited + j * store_poll < bound + store_poll) × (is_present (look (n + j)) ≡ true)

-- The waiting ends, and well exactly if the store is seen in time.
abbrev pub Ends : Option Waited → (ℕ → StoreSight) → ℕ → ℕ → ℕ → Type 0
Ends o look bound n waited =
    (w : Waited) × (o ≡ some w) × ((is_ok w.result ≡ true) ↔ SeenInTime look bound n waited)

module _ (look : ℕ → StoreSight) (bound : ℕ) where
  now :
      (n waited : ℕ)
      → waited < bound + store_poll
      → is_present (look n) ≡ true
      → SeenInTime look bound n waited
  now n waited early seen =
      (0, omega arith, subst (λ k. is_present (look k) ≡ true) (omega arith) seen)

  later :
      (n waited : ℕ)
      → SeenInTime look bound (suc n) (waited + store_poll)
      → SeenInTime look bound n waited
  later n waited (j, early, seen) =
      (suc j, omega arith, subst (λ k. is_present (look k) ≡ true) (omega arith) seen)

  not_now :
      (n waited : ℕ)
      → is_present (look n) ≡ false
      → SeenInTime look bound n waited
      → SeenInTime look bound (suc n) (waited + store_poll)
  not_now n waited unseen (zero, early, seen) =
      let here : n + 0 ≡ n = omega arith in
      let shown : is_present (look n) ≡ true = subst (λ k. is_present (look k) ≡ true) here seen in
      cc
  not_now n waited unseen (suc j, early, seen) =
      (j, omega arith, subst (λ k. is_present (look k) ≡ true) (omega arith) seen)

  too_late :
      (n waited : ℕ) → bound ≤ waited → SeenInTime look bound (suc n) (waited + store_poll) → ⊥
  too_late n waited late (j, early, seen) = omega arith

  -- The end of the waiting from the end of what comes after the pause.
  waited_on :
      (o : Option Waited) (notes : List Note) (n waited : ℕ)
      → is_present (look n) ≡ false
      → Ends o look bound (suc n) (waited + store_poll)
      → Ends (paused notes o) look bound n waited
  unfolding paused
  waited_on none notes n waited unseen (w, e, iff) = cc
  waited_on (some v) notes n waited unseen (w, e, iff) =
      let same : v ≡ w = ap (λ o. unwrap_or o v) e in
      (
        noted notes v,
        refl,
        (
          λ good. later n waited (iff.0 (subst (λ x. is_ok x.result ≡ true) same good)),
          λ seen.
              subst (λ x. is_ok x.result ≡ true) (sym same) (iff.1 (not_now n waited unseen seen)),
        ),
      )

  arrived :
      (announced : Bool) (n waited : ℕ) (how : Text)
      → SeenInTime look bound n waited
      → Ends (some (arrival announced waited how)) look bound n waited
  unfolding arrival
  arrived true n waited how seen = (_, refl, (λ good. seen, λ seen. refl))
  arrived false n waited how seen = (_, refl, (λ good. seen, λ seen. refl))

  gave_up :
      (n waited : ℕ) (detail : Text)
      → is_present (look n) ≡ false
      → bound ≤ waited
      → Ends (some (record { result = err detail; log = [] })) look bound n waited
  gave_up n waited detail unseen late = (
    _,
    refl,
    (λ good. cc, λ seen. absurd (too_late n waited late (not_now n waited unseen seen))),
  )

  after_look-Ends :
      (s : StoreSight) (n waited : ℕ) (announced : Bool) (more : Option Waited)
      → look n ≡ s
      → waited < bound + store_poll
      → (waited < bound → Ends more look bound (suc n) (waited + store_poll))
      → Ends (after_look bound s waited announced more) look bound n waited
  unfolding after_look
  after_look-Ends (present how) n waited announced more at early go =
      arrived announced n waited how (now n waited early (ap is_present at))
  after_look-Ends (absent detail) n waited announced more at early go =
      elim (Bool-cases (leb bound waited)) [
        | inl late ↦ rw late (gave_up n waited detail (ap is_present at) (ground arith))
        | inr on_time ↦
            rw on_time (waited_on more _ n waited (ap is_present at) (go (ground arith)))
      ]

  wait_from-Ends :
      (fuel n waited : ℕ) (announced : Bool)
      → waited < bound + store_poll
      → bound + store_poll ≤ waited + fuel * store_poll
      → Ends (wait_from bound look fuel n waited announced) look bound n waited
  unfolding wait_from
  wait_from-Ends zero n waited announced early enough = absurd (omega arith)
  wait_from-Ends (suc fuel) n waited announced early enough =
      after_look-Ends (look n) n waited announced _ refl early (λ on_time.
        wait_from-Ends fuel (suc n) (waited + store_poll) true (omega arith) (omega arith))

  -- For every bound the waiting ends within the fuel, and it ends well exactly if the store is seen at
  -- a look whose number, from 0 on, times the poll is less than the bound and one poll.
  pub wait_for_store-Ends : Ends (wait_for_store bound look) look bound 0 0
  unfolding wait_for_store
  wait_for_store-Ends = wait_from-Ends (suc bound) 0 0 false (omega arith) (omega arith)
