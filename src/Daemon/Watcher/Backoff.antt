-- ===== src/Daemon/Watcher/Backoff.antt =====
-- How long the loop sleeps between two connections.
use native.Mathlib.Nat.{pow-suc}
use one_drive_hydration.Prelude.{
  ℕ, zero, suc, ◌*◌, ◌^◌, ◌≤◌, ◌≡◌, refl, sym, ◌∙◌, ap, Bool, true, false, none, some, List, [],
  ◌∷◌, ◌++◌, append-nil, append_assoc, is_empty, not, ◌||◌, min, Bool-cases, inl, inr, arith, All,
}
use one_drive_hydration.Text.{Text}
use one_drive_hydration.Daemon.Watcher.Distinct.{
  lines_of, told_by, told, note_line-state, left, watch_round-state,
}
use one_drive_hydration.Daemon.Watcher.{
  Watch, Reader, Connection, retry_floor, retry_ceiling, publish_distinct, note_line, watch_lines,
  watch_once, back_off, watch_round, watch_rounds,
}

-- The sleeps by whether each connection spoke, after `k` connections in a row that did not: one
-- second after a connection that spoke, else a power of two up to the ceiling.
unfoldable pub sleeps : List Bool → ℕ → List ℕ
sleeps [] k = []
sleeps (true ∷ spoke) k = retry_floor ∷ sleeps spoke 0
sleeps (false ∷ spoke) k = min retry_ceiling (2 ^ k) ∷ sleeps spoke (suc k)

doubled :
    (k : ℕ) → min retry_ceiling (min retry_ceiling (2 ^ k) * 2) ≡ min retry_ceiling (2 ^ suc k)
doubled k = omega (arith, pow-suc 2 k)

positive : (k : ℕ) → 1 ≤ 2 ^ k
positive zero = omega arith
positive (suc k) = omega (arith, positive k, pow-suc 2 k)

-- No sleep is shorter than the floor or longer than the ceiling.
pub sleeps-bounded :
    (spoke : List Bool) (k : ℕ)
    → All (λ t. (retry_floor ≤ t) × (t ≤ retry_ceiling)) (sleeps spoke k)
unfolding sleeps
sleeps-bounded [] k = tt
sleeps-bounded (true ∷ spoke) k = ((omega arith, omega arith), sleeps-bounded spoke 0)
sleeps-bounded (false ∷ spoke) k =
    let h = positive k in ((omega arith, omega arith), sleeps-bounded spoke (suc k))

module _ {ℓ} {A : Type ℓ} (same : A → A → Bool) (read : Reader A) (lost : A → A) where
  abbrev timing : Watch A → ℕ × List ℕ
  timing w = (w.delay, w.slept)

  publish_distinct-timing : (s : A) (w : Watch A) → timing (publish_distinct same s w) ≡ timing w
  unfolding publish_distinct
  publish_distinct-timing s w = elim (Bool-cases (same s w.last_published)) [
    | inl e ↦ rw e refl
    | inr e ↦ rw e refl
  ]

  note_line-timing : (r : Bool × A) (w : Watch A) → timing (note_line same r w) ≡ timing w
  unfolding note_line
  note_line-timing (true, s) w = publish_distinct-timing s (record w { state = s })
  note_line-timing (false, s) w = refl

  watch_lines-timing :
      (lines : List Text) (saw : Bool) (w : Watch A)
      → timing (watch_lines same read lines saw w).1 ≡ timing w
  unfolding watch_lines
  watch_lines-timing [] saw w = refl
  watch_lines-timing (l ∷ lines) saw w =
      watch_lines-timing lines _ (note_line same (read l w.state) w)
      ∙ note_line-timing (read l w.state) w

  watch_once-timing :
      (c : Connection) (w : Watch A) → timing (watch_once same read c w).1 ≡ timing w
  unfolding watch_once
  watch_once-timing none w = refl
  watch_once-timing (some lines) w = watch_lines-timing lines false w

  -- Whether some line of a connection told a state, for each connection.
  unfoldable pub outcomes : List Connection → A → List Bool
  outcomes [] a = []
  outcomes (c ∷ connections) a =
      not (is_empty (told read (lines_of c) a)) ∷ outcomes connections (left same read lost c a)

  not_empty-told_by :
      (r : Bool × A) (rest : List A)
      → not (is_empty (told_by r rest)) ≡ (r.0 || not (is_empty rest))
  unfolding told_by
  not_empty-told_by (true, s) rest = refl
  not_empty-told_by (false, s) rest = refl

  watch_lines-spoke :
      (lines : List Text) (saw : Bool) (w : Watch A)
      → (watch_lines same read lines saw w).0 ≡ (saw || not (is_empty (told read lines w.state)))
  unfolding watch_lines told
  watch_lines-spoke [] saw w = ground arith
  watch_lines-spoke (l ∷ lines) saw w =
      let r = read l w.state in
      let still = watch_lines-spoke lines (saw || r.0) (note_line same r w) in
      let moved : not (is_empty (told read lines (note_line same r w).state))
          ≡ not (is_empty (told read lines r.1)) =
        ap (λ a. not (is_empty (told read lines a))) (note_line-state same read lost r w) in
      ground (arith, still, moved, not_empty-told_by r (told read lines r.1))

  watch_once-spoke :
      (c : Connection) (w : Watch A)
      → (watch_once same read c w).0 ≡ not (is_empty (told read (lines_of c) w.state))
  unfolding watch_once told
  watch_once-spoke none w = refl
  watch_once-spoke (some lines) w = watch_lines-spoke lines false w

  after : Bool → ℕ → ℕ
  after true k = 0
  after false k = suc k

  back_off-sleeps :
      (saw : Bool) (w v : Watch A) (k : ℕ) (spoke : List Bool)
      → timing v ≡ timing w
      → w.delay ≡ min retry_ceiling (2 ^ k)
      → ((back_off saw v).delay ≡ min retry_ceiling (2 ^ after saw k))
        × ((back_off saw v).slept ++ sleeps spoke (after saw k) ≡ w.slept ++ sleeps (saw ∷ spoke) k)
  unfolding back_off sleeps after
  back_off-sleeps true w v k spoke same_time delayed = (
    refl,
    append_assoc v.slept (retry_floor ∷ []) (sleeps spoke 0)
        ∙ ap (λ t. t.1 ++ retry_floor ∷ sleeps spoke 0) same_time,
  )
  back_off-sleeps false w v k spoke same_time delayed =
      let now : v.delay ≡ min retry_ceiling (2 ^ k) = ap (λ t. t.0) same_time ∙ delayed in
      (
        ap (λ t. min retry_ceiling (t * 2)) now ∙ doubled k,
        append_assoc v.slept (v.delay ∷ []) (sleeps spoke (suc k))
            ∙ ap (λ t. v.slept ++ t ∷ sleeps spoke (suc k)) now
            ∙ ap (λ t. t.1 ++ min retry_ceiling (2 ^ k) ∷ sleeps spoke (suc k)) same_time,
      )

  pub watch_rounds-sleeps :
      (connections : List Connection) (w : Watch A) (k : ℕ)
      → w.delay ≡ min retry_ceiling (2 ^ k)
      → (watch_rounds same read lost connections w).slept
        ≡ w.slept ++ sleeps (outcomes connections w.state) k
  unfolding watch_rounds sleeps outcomes watch_round
  watch_rounds-sleeps [] w k delayed = sym (append-nil w.slept)
  watch_rounds-sleeps (c ∷ connections) w k delayed =
      let (later, joined) =
        back_off-sleeps (watch_once same read c w).0 w _ k _
          (publish_distinct-timing _ _ ∙ watch_once-timing c w) delayed in
      watch_rounds-sleeps connections (watch_round same read lost c w)
        (after (watch_once same read c w).0 k) later
      ∙ ap
          (λ a.
            (watch_round same read lost c w).slept
            ++ sleeps (outcomes connections a) (after (watch_once same read c w).0 k))
          (watch_round-state same read lost c w)
      ∙ joined
      ∙ ap (λ b. w.slept ++ sleeps (b ∷ outcomes connections (left same read lost c w.state)) k)
          (watch_once-spoke c w)
