-- ===== src/Daemon/Surface/Enrolling/Exclusive.antt =====
-- At most one browser sign-in is under way.
use one_drive_hydration.Prelude.{
  ℕ, suc, ◌+◌, ◌≡◌, ◌↔◌, ◌<◌, refl, Bool, true, false, Option, none, some, arith, if◌then◌else◌,
}
use one_drive_hydration.Text.{Text}
use one_drive_hydration.Daemon.Surface.Enrolling.{
  waiting, Enrolling, not_enrolling, claim, give_up, spawn, write_outcome, release, Goes, claims,
  refused, gives_up, spawns, writes, releases, Reachable, at_start, after,
}

-- The calls and workers that hold the flag: one while it is set, else none. The status is `waiting`
-- exactly while a worker has not written its outcome.
abbrev pub IsExclusive : Enrolling → Type 0
IsExclusive s =
    (s.binding + s.working + s.leaving ≡ (if s.busy then 1 else 0))
    × (s.status ≡ waiting ↔ 0 < s.working)

claimed-IsExclusive :
    (s : Enrolling)
    → s.busy ≡ false
    → IsExclusive s
    → IsExclusive (record s { busy = true; binding = s.binding + 1 })
claimed-IsExclusive s e (held, waits) = (ground arith, waits)

claim-IsExclusive :
    (b : Bool) (s t : Enrolling) → s.busy ≡ b → claim b s ≡ some t → IsExclusive s → IsExclusive t
unfolding claim
claim-IsExclusive true s t e h x = cc
claim-IsExclusive false s t e h x =
    let q : record s { busy = true; binding = s.binding + 1 } ≡ t = cc in
    rw⁻¹ q (claimed-IsExclusive s e x)

write_outcome-IsExclusive :
    (s : Enrolling) (n : ℕ) (outcome : Option Text)
    → s.working ≡ suc n
    → IsExclusive s
    → IsExclusive (write_outcome outcome n s)
unfolding write_outcome
write_outcome-IsExclusive s n none h (held, waits) =
    (ground arith, (λ e. cc, λ more. absurd (none_left more)))
  where
    none_left : 0 < n → ⊥
    none_left more = ground arith
write_outcome-IsExclusive s n (some error) h (held, waits) =
    (ground arith, (λ e. cc, λ more. absurd (none_left more)))
  where
    none_left : 0 < n → ⊥
    none_left more = ground arith

Goes-IsExclusive : {s t : Enrolling} → Goes s t → IsExclusive s → IsExclusive t
unfolding give_up spawn release
Goes-IsExclusive (claims s t h) x = claim-IsExclusive s.busy s t refl h x
Goes-IsExclusive (refused s h) x = x
Goes-IsExclusive (gives_up s n h) (held, waits) = (ground arith, waits)
Goes-IsExclusive (spawns s n h) (held, waits) = (ground arith, (λ e. omega arith, λ more. refl))
Goes-IsExclusive (writes s n outcome h) x = write_outcome-IsExclusive s n outcome h x
Goes-IsExclusive (releases s n h) (held, waits) = (ground arith, waits)

not_enrolling-IsExclusive : IsExclusive not_enrolling
not_enrolling-IsExclusive = (omega arith, (λ e. cc, λ more. absurd (omega arith)))

reached : {s t : Enrolling} → IsExclusive s → Reachable s t → IsExclusive t
reached h at_start = h
reached h (after r go) = Goes-IsExclusive go (reached h r)

-- However the calls of `begin_enrollment` and their workers are interleaved, at most one of them holds
-- the flag, and one does exactly while the flag is set. The status is `waiting` exactly while a worker
-- has not written its outcome.
pub Reachable-IsExclusive : (s : Enrolling) → Reachable not_enrolling s → IsExclusive s
Reachable-IsExclusive s r = reached not_enrolling-IsExclusive r
