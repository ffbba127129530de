-- ===== src/Daemon/Surface/Enrolling.antt =====
-- The browser sign-in as `begin_enrollment` and `enrollment_status` of `ControlSurface` run it, in
-- crates/onedrive-daemon/src/dbus.rs: calls and worker threads, interleaved at the atomic flag and at the
-- lock of the status. A call is permitted before its first step.
pub mod Exclusive
use one_drive_hydration.Prelude.{ℕ, suc, ◌+◌, ◌≡◌, Bool, true, false, Option, none, some}
use one_drive_hydration.Text.{Text}

pub data EnrollmentStatus : Type 0 where
  idle waiting complete : EnrollmentStatus
  failed : Text → EnrollmentStatus

-- The flag and the status, with how many calls hold the flag and bind their listener, how many workers
-- have not written their outcome, and how many have but still hold the flag.
pub record Enrolling : Type 0 where
  pub busy : Bool
  pub status : EnrollmentStatus
  pub binding : ℕ
  pub working : ℕ
  pub leaving : ℕ

abbrev pub not_enrolling : Enrolling
not_enrolling = record { busy = false; status = idle; binding = 0; working = 0; leaving = 0 }

-- `compare_exchange(false, true)`: `none` is the answer `EnrollmentBusy`.
unfoldable pub claim : Bool → Enrolling → Option Enrolling
claim true s = none
claim false s = some (record s { busy = true; binding = s.binding + 1 })

-- `BrowserEnrollment::begin` failed, and the flag is cleared; `n` other calls are there.
unfoldable pub give_up : ℕ → Enrolling → Enrolling
give_up n s = record s { busy = false; binding = n }

-- The status is set and the worker spawned.
unfoldable pub spawn : ℕ → Enrolling → Enrolling
spawn n s = record s { status = waiting; binding = n; working = s.working + 1 }

-- The worker writes its outcome: `none` is a stored sign-in, else the diagnostic.
unfoldable pub write_outcome : Option Text → ℕ → Enrolling → Enrolling
write_outcome none n s = record s { status = complete; working = n; leaving = s.leaving + 1 }
write_outcome (some error) n s = record s {
  status = failed error;
  working = n;
  leaving = s.leaving + 1;
}

-- The worker clears the flag as its last step.
unfoldable pub release : ℕ → Enrolling → Enrolling
release n s = record s { busy = false; leaving = n }

-- One step of a call or of a worker that is there.
pub data Goes : Enrolling → Enrolling → Type 0 where
  claims : (s t : Enrolling) → claim s.busy s ≡ some t → Goes s t
  refused : (s : Enrolling) → claim s.busy s ≡ none → Goes s s
  gives_up : (s : Enrolling) (n : ℕ) → s.binding ≡ suc n → Goes s (give_up n s)
  spawns : (s : Enrolling) (n : ℕ) → s.binding ≡ suc n → Goes s (spawn n s)
  writes :
      (s : Enrolling) (n : ℕ) (outcome : Option Text)
      → s.working ≡ suc n
      → Goes s (write_outcome outcome n s)
  releases : (s : Enrolling) (n : ℕ) → s.leaving ≡ suc n → Goes s (release n s)

pub data Reachable (s : Enrolling) : Enrolling → Type 0 where
  at_start : Reachable s s
  after : {t u : Enrolling} → Reachable s t → Goes t u → Reachable s u
