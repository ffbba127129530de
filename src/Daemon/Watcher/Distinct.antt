-- ===== src/Daemon/Watcher/Distinct.antt =====
-- The published states are the states that the loop goes through, without the repetitions.
use one_drive_hydration.Prelude.{
  ◌≡◌, refl, sym, ◌∙◌, ap, Bool, true, false, none, some, List, [], ◌∷◌, ◌++◌, append-nil,
  append_assoc, if◌then◌else◌, Bool-cases, ◌⊎◌, inl, inr, subst,
}
use one_drive_hydration.Text.{Text}
use one_drive_hydration.Daemon.Watcher.{
  Watch, Reader, Connection, publish_distinct, note_line, watch_lines, watch_once, back_off,
  watch_round, watch_rounds,
}

abbrev pub lines_of : Connection → List Text
lines_of none = []
lines_of (some lines) = lines

module _ {ℓ} {A : Type ℓ} where
  -- A state as long as it is another than the one before.
  unfoldable pub distinct : (A → A → Bool) → A → List A → List A
  distinct same prev [] = []
  distinct same prev (a ∷ states) =
      let later = distinct same a states in
      let rest = distinct same prev states in if same a prev then rest else a ∷ later

  unfoldable pub told_by : Bool × A → List A → List A
  told_by (true, s) rest = s ∷ rest
  told_by (false, s) rest = rest

  -- The states that one connection's lines tell, and the state at its end.
  unfoldable pub told : Reader A → List Text → A → List A
  unfolding told_by
  told read [] a = []
  told read (l ∷ lines) a = told_by (read l a) (told read lines (read l a).1)

  unfoldable pub held : Reader A → List Text → A → A
  held read [] a = a
  held read (l ∷ lines) a = held read lines (read l a).1

  -- All states in their order: those of each connection, then what its loss leaves.
  unfoldable pub history : Reader A → (A → A) → List Connection → A → List A
  unfolding told held
  history read lost [] a = []
  history read lost (c ∷ connections) a =
      let left = lost (held read (lines_of c) a) in
      told read (lines_of c) a ++ left ∷ history read lost connections left

module _ {ℓ} {A : Type ℓ} (same : A → A → Bool) (read : Reader A) (lost : A → A) where
  -- What will have been published if these states are still to come.
  abbrev pub shown : Watch A → List A → List A
  shown w states = w.published ++ distinct same w.last_published states

  publish_distinct-state : (s : A) (w : Watch A) → (publish_distinct same s w).state ≡ w.state
  unfolding publish_distinct
  publish_distinct-state s w = elim (Bool-cases (same s w.last_published)) [
    | inl e ↦ rw e refl
    | inr e ↦ rw e refl
  ]

  shown-publish_distinct :
      (s : A) (w : Watch A) (rest : List A)
      → shown (publish_distinct same s w) rest ≡ shown w (s ∷ rest)
  unfolding publish_distinct distinct
  shown-publish_distinct s w rest = elim (Bool-cases (same s w.last_published)) [
    | inl e ↦ rw e refl
    | inr e ↦ rw e (append_assoc w.published (s ∷ []) (distinct same s rest))
  ]

  pub note_line-state : (r : Bool × A) (w : Watch A) → (note_line same r w).state ≡ r.1
  unfolding note_line
  note_line-state (true, s) w = publish_distinct-state s (record w { state = s })
  note_line-state (false, s) w = refl

  shown-note_line :
      (r : Bool × A) (w : Watch A) (rest : List A)
      → shown (note_line same r w) rest ≡ shown w (told_by r rest)
  unfolding note_line told_by
  shown-note_line (true, s) w rest = shown-publish_distinct s (record w { state = s }) rest
  shown-note_line (false, s) w rest = refl

  watch_lines-state :
      (lines : List Text) (saw : Bool) (w : Watch A)
      → (watch_lines same read lines saw w).1.state ≡ held read lines w.state
  unfolding watch_lines held
  watch_lines-state [] saw w = refl
  watch_lines-state (l ∷ lines) saw w =
      watch_lines-state lines _ (note_line same (read l w.state) w)
      ∙ ap (held read lines) (note_line-state (read l w.state) w)

  told_by-append : (r : Bool × A) (xs ys : List A) → told_by r (xs ++ ys) ≡ told_by r xs ++ ys
  unfolding told_by
  told_by-append (true, s) xs ys = refl
  told_by-append (false, s) xs ys = refl

  shown-watch_lines :
      (lines : List Text) (saw : Bool) (w : Watch A) (rest : List A)
      → shown (watch_lines same read lines saw w).1 rest ≡ shown w (told read lines w.state ++ rest)
  unfolding watch_lines told
  shown-watch_lines [] saw w rest = refl
  shown-watch_lines (l ∷ lines) saw w rest =
      let r = read l w.state in
      shown-watch_lines lines _ (note_line same r w) rest
      ∙ ap (λ a. shown (note_line same r w) (told read lines a ++ rest)) (note_line-state r w)
      ∙ shown-note_line r w (told read lines r.1 ++ rest)
      ∙ ap (shown w) (told_by-append r (told read lines r.1) rest)

  watch_once-state :
      (c : Connection) (w : Watch A)
      → (watch_once same read c w).1.state ≡ held read (lines_of c) w.state
  unfolding watch_once held
  watch_once-state none w = refl
  watch_once-state (some lines) w = watch_lines-state lines false w

  shown-watch_once :
      (c : Connection) (w : Watch A) (rest : List A)
      → shown (watch_once same read c w).1 rest ≡ shown w (told read (lines_of c) w.state ++ rest)
  unfolding watch_once told
  shown-watch_once none w rest = refl
  shown-watch_once (some lines) w rest = shown-watch_lines lines false w rest

  back_off-state : (saw : Bool) (w : Watch A) → (back_off saw w).state ≡ w.state
  unfolding back_off
  back_off-state true w = refl
  back_off-state false w = refl

  shown-back_off :
      (saw : Bool) (w : Watch A) (rest : List A) → shown (back_off saw w) rest ≡ shown w rest
  unfolding back_off
  shown-back_off true w rest = refl
  shown-back_off false w rest = refl

  abbrev pub left : Connection → A → A
  left c a = lost (held read (lines_of c) a)

  pub watch_round-state :
      (c : Connection) (w : Watch A) → (watch_round same read lost c w).state ≡ left c w.state
  unfolding watch_round
  watch_round-state c w =
      back_off-state _ _ ∙ publish_distinct-state _ _ ∙ ap lost (watch_once-state c w)

  shown-watch_round :
      (c : Connection) (w : Watch A) (rest : List A)
      → shown (watch_round same read lost c w) rest
        ≡ shown w (told read (lines_of c) w.state ++ left c w.state ∷ rest)
  unfolding watch_round
  shown-watch_round c w rest =
      let w' : Watch A = (watch_once same read c w).1 in
      shown-back_off _ _ rest
      ∙ shown-publish_distinct (lost w'.state) (record w' { state = lost w'.state }) rest
      ∙ ap (λ a. shown w' (lost a ∷ rest)) (watch_once-state c w)
      ∙ shown-watch_once c w (left c w.state ∷ rest)

  pub shown-watch_rounds :
      (connections : List Connection) (w : Watch A)
      → (watch_rounds same read lost connections w).published
        ≡ shown w (history read lost connections w.state)
  unfolding watch_rounds history distinct
  shown-watch_rounds [] w = sym (append-nil w.published)
  shown-watch_rounds (c ∷ connections) w =
      shown-watch_rounds connections (watch_round same read lost c w)
      ∙ ap (λ a. shown (watch_round same read lost c w) (history read lost connections a))
          (watch_round-state c w)
      ∙ shown-watch_round c w (history read lost connections (left c w.state))

  publish_distinct-last :
      (s : A) (w : Watch A)
      → (same s (publish_distinct same s w).last_published ≡ true)
        ⊎ ((publish_distinct same s w).last_published ≡ s)
  unfolding publish_distinct
  publish_distinct-last s w = elim (Bool-cases (same s w.last_published)) [
    | inl e ↦ inl (rw e e)
    | inr e ↦ inr (rw e refl)
  ]

  back_off-last : (saw : Bool) (w : Watch A) → (back_off saw w).last_published ≡ w.last_published
  unfolding back_off
  back_off-last true w = refl
  back_off-last false w = refl

  -- The state published last is the state that the connection left, or counts as the same.
  pub watch_round-last :
      (c : Connection) (w : Watch A)
      → (same (left c w.state) (watch_round same read lost c w).last_published ≡ true)
        ⊎ ((watch_round same read lost c w).last_published ≡ left c w.state)
  unfolding watch_round
  watch_round-last c w =
      let held_state : (watch_once same read c w).1.state ≡ held read (lines_of c) w.state =
        watch_once-state c w in
      subst
        (λ a.
          (same (lost a) (watch_round same read lost c w).last_published ≡ true)
          ⊎ ((watch_round same read lost c w).last_published ≡ lost a))
        held_state (rw (back_off-last (watch_once same read c w).0) (publish_distinct-last _ _))

  pub watch_rounds-append :
      (connections : List Connection) (c : Connection) (w : Watch A)
      → watch_rounds same read lost (connections ++ c ∷ []) w
        ≡ watch_round same read lost c (watch_rounds same read lost connections w)
  unfolding watch_rounds
  watch_rounds-append [] c w = refl
  watch_rounds-append (d ∷ connections) c w =
      watch_rounds-append connections c (watch_round same read lost d w)
