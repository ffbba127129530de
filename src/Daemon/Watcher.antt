-- ===== src/Daemon/Watcher.antt =====
-- The loop that `watch_daemon` and `watch_credential` of crates/onedrive-daemon/src/dbus.rs share:
-- hold a connection, publish every distinct state, back off when the daemon does not speak. The two
-- differ in the type of the state, in how a line is read and in what a lost connection leaves of it.
pub mod Distinct
pub mod Backoff
use one_drive_hydration.Prelude.{
  ℕ, ◌*◌, Bool, true, false, ◌||◌, Option, none, some, List, [], ◌∷◌, ◌++◌, min, if◌then◌else◌,
}
use one_drive_hydration.Text.{Text}

-- `RETRY_FLOOR` and `RETRY_CEILING`, in seconds.
abbrev pub retry_floor : ℕ
retry_floor = 1

abbrev pub retry_ceiling : ℕ
retry_ceiling = 30

-- The variables of the loop, with what was published and slept so far, the first first.
pub record Watch {ℓ} (A : Type ℓ) : Type ℓ where
  pub state : A
  pub last_published : A
  pub delay : ℕ
  pub published : List A
  pub slept : List ℕ

-- A state line is read into the state, with whether it told anything.
abbrev pub Reader {ℓ} : Type ℓ → Type ℓ
Reader A = Text → A → Bool × A

-- What a connection gives: `none` if it cannot be made or written to, else its lines to the end.
abbrev pub Connection : Type 0
Connection = Option (List Text)

module _ {ℓ} {A : Type ℓ} where
  abbrev pub watch_start : A → Watch A
  watch_start a = record {
    state = a;
    last_published = a;
    delay = retry_floor;
    published = [];
    slept = [];
  }

  -- The closure `publish_distinct`.
  unfoldable pub publish_distinct : (A → A → Bool) → A → Watch A → Watch A
  publish_distinct same s w =
      if same s w.last_published
      then w
      else record w { last_published = s; published = w.published ++ s ∷ [] }

  -- A line that was recognized is published.
  unfoldable pub note_line : (A → A → Bool) → Bool × A → Watch A → Watch A
  unfolding publish_distinct
  note_line same (true, s) w = publish_distinct same s (record w { state = s })
  note_line same (false, s) w = record w { state = s }

  -- The loop over the lines of `watch_once`, with whether one was recognized so far.
  unfoldable pub watch_lines :
      (A → A → Bool) → Reader A → List Text → Bool → Watch A → Bool × Watch A
  unfolding note_line
  watch_lines same read [] saw w = (saw, w)
  watch_lines same read (l ∷ lines) saw w =
      let r = read l w.state in watch_lines same read lines (saw || r.0) (note_line same r w)

  unfoldable pub watch_once : (A → A → Bool) → Reader A → Connection → Watch A → Bool × Watch A
  unfolding watch_lines
  watch_once same read none w = (false, w)
  watch_once same read (some lines) w = watch_lines same read lines false w

  -- The sleep after a connection, and the next delay.
  unfoldable pub back_off : Bool → Watch A → Watch A
  back_off true w = record w { delay = retry_floor; slept = w.slept ++ retry_floor ∷ [] }
  back_off false w = record w {
    delay = min retry_ceiling (w.delay * 2);
    slept = w.slept ++ w.delay ∷ [];
  }

  -- One round of the loop; `lost` is what is left of a state when the connection is.
  unfoldable pub watch_round : (A → A → Bool) → Reader A → (A → A) → Connection → Watch A → Watch A
  unfolding watch_once publish_distinct back_off
  watch_round same read lost c w =
      let (saw, held) = watch_once same read c w in
      back_off saw
        (publish_distinct same (lost held.state) (record held { state = lost held.state }))

  unfoldable pub watch_rounds :
      (A → A → Bool) → Reader A → (A → A) → List Connection → Watch A → Watch A
  unfolding watch_round
  watch_rounds same read lost [] w = w
  watch_rounds same read lost (c ∷ connections) w =
      watch_rounds same read lost connections (watch_round same read lost c w)
