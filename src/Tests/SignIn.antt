-- ===== src/Tests/SignIn.antt =====
-- A browser sign-in whose redirect carries the state and a code, and two calls for a sign-in.
use one_drive_hydration.Prelude.{ℕ, ◌≡◌, refl, true, Option, none, some, any, Result, ok, ErrorKind}
use one_drive_hydration.Text.{Text, codes}
use one_drive_hydration.Daemon.Surface.Enrolling.{
  Enrolling, not_enrolling, claim, spawn, Goes, claims, refused, spawns, at_start, after,
}
use one_drive_hydration.Daemon.Surface.Enrolling.Exclusive.{IsExclusive, Reachable-IsExclusive}
use one_drive_hydration.Daemon.Enroll.{Enrollment, TokenResponse, Fields, token_request, complete}
use one_drive_hydration.Daemon.Enroll.Guarded.{is_exchange, SignedIn, BelongsTo, complete-BelongsTo}

abbrev enrollment : Enrollment
enrollment = record {
  redirect_uri = codes "http://127.0.0.1:4000";
  verifier = codes "v";
  state = codes "s";
  client_id = codes "app";
}

abbrev as_it_is : Text → Option Text
as_it_is raw = some raw

abbrev heard : ℕ → Result ErrorKind (Unit {0})
heard status = ok tt

abbrev keeps : Text → Result ErrorKind (Unit {0})
keeps refresh = ok tt

abbrev gives : Fields → Result ErrorKind TokenResponse
gives request = ok (record {
  refresh_token = some (codes "r");
  scope = none;
  error = none;
  error_description = none;
})

abbrev redirect : Text
redirect = codes "/?state=s&code=c"

complete-BelongsTo_example :
    (any is_exchange (complete heard keeps gives as_it_is enrollment redirect).steps ≡ true
      → (code : Text) × BelongsTo heard keeps gives as_it_is enrollment redirect code)
    × ((scope : Option Text)
        → (complete heard keeps gives as_it_is enrollment redirect).result ≡ ok scope
        → (code : Text) × BelongsTo heard keeps gives as_it_is enrollment redirect code
          × SignedIn heard keeps gives
              (token_request enrollment code)
              scope
              (complete heard keeps gives as_it_is enrollment redirect))
complete-BelongsTo_example = complete-BelongsTo heard keeps gives as_it_is enrollment redirect

-- A call claims the flag, its worker is spawned, and a second call is refused.
abbrev claimed : Enrolling
claimed = record not_enrolling { busy = true; binding = 1 }

claims_first : Goes not_enrolling claimed
unfolding claim
claims_first = claims not_enrolling claimed refl

spawns_next : Goes claimed (spawn 0 claimed)
spawns_next = spawns claimed 0 refl

refused_then : Goes (spawn 0 claimed) (spawn 0 claimed)
unfolding claim spawn
refused_then = refused (spawn 0 claimed) refl

Reachable-IsExclusive_example : IsExclusive (spawn 0 claimed)
Reachable-IsExclusive_example =
    Reachable-IsExclusive (spawn 0 claimed)
      (after (after (after at_start claims_first) spawns_next) refused_then)
