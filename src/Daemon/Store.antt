-- ===== src/Daemon/Store.antt =====
-- `wait_for_store` of crates/onedrive-daemon/src/lib.rs. Durations are milliseconds; what `look` sees
-- is a function of the number of looks before.
pub mod Deadline
use one_drive_hydration.Prelude.{
  ℕ, zero, suc, ◌+◌, ◌*◌, Bool, true, false, Option, none, some, List, [], ◌∷◌, ◌++◌, leb,
  if◌then◌else◌, Result, ok, err, map,
}
use one_drive_hydration.Text.{Text}

pub data StoreSight : Type 0 where
  present absent : Text → StoreSight

abbrev pub is_present : StoreSight → Bool
is_present (present how) = true
is_present (absent detail) = false

pub data Note : Type 0 where
  not_up_yet : Text → ℕ → Note
  became_available : ℕ → Text → Note

-- `STORE_POLL`
abbrev pub store_poll : ℕ
store_poll = 500

-- How the waiting ends, and what was logged. An error is `TimedOut` with the last detail.
pub record Waited : Type 0 where
  pub result : Result Text (Unit {0})
  pub log : List Note

abbrev noted : List Note → Waited → Waited
noted notes w = record w { log = notes ++ w.log }

announcement : Bool → Text → ℕ → List Note
announcement true detail bound = []
announcement false detail bound = not_up_yet detail bound ∷ []

arrival : Bool → ℕ → Text → Waited
arrival true waited how = record { result = ok tt; log = became_available waited how ∷ [] }
arrival false waited how = record { result = ok tt; log = [] }

paused : List Note → Option Waited → Option Waited
paused notes none = none
paused notes (some w) = some (noted notes w)

-- The body of the loop for what was seen; `more` is what comes after the pause.
unfoldable pub after_look : ℕ → StoreSight → ℕ → Bool → Option Waited → Option Waited
unfolding arrival announcement paused
after_look bound (present how) waited announced more = some (arrival announced waited how)
after_look bound (absent detail) waited announced more =
    if leb bound waited
    then some (record { result = err detail; log = [] })
    else paused (announcement announced detail bound) more

-- The loop after `n` looks: `waited` is the sum of the pauses.
unfoldable pub wait_from : ℕ → (ℕ → StoreSight) → ℕ → ℕ → ℕ → Bool → Option Waited
unfolding after_look
wait_from bound look zero n waited announced = none
wait_from bound look (suc fuel) n waited announced =
    let more = wait_from bound look fuel (suc n) (waited + store_poll) true in
    after_look bound (look n) waited announced more

-- The fuel is the bound's, plus one look for the deadline: see `wait_for_store-Ends`.
unfoldable pub wait_for_store : ℕ → (ℕ → StoreSight) → Option Waited
unfolding wait_from
wait_for_store bound look = wait_from bound look (suc bound) 0 0 false
