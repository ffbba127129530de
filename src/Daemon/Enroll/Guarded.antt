-- ===== src/Daemon/Enroll/Guarded.antt =====
-- When a code is spent and when a sign-in counts as complete.
use one_drive_hydration.Prelude.{
  ℕ, ◌≡◌, refl, ◌∙◌, ap, sym, Bool, true, false, Option, none, some, [], ◌∷◌, any, Result, ok, err,
  ErrorKind, Bool-cases, ◌⊎◌, ◌≢◌, inl, inr,
}
use one_drive_hydration.Text.{Text, codes, text_eq-eq, strip_prefix}
use one_drive_hydration.Daemon.Enroll.{
  Enrollment, TokenResponse, EnrollError, Fields, one, parse_query, Step, exchanged, stored,
  responded, Ending, token_request, fail, unless_unheard, respond_then, state_mismatch, no_code,
  after_store, with_refresh, with_response, after_exchange, with_code, with_error, is_state,
  with_state, with_fields, with_query, complete,
}

abbrev pub is_exchange : Step → Bool
is_exchange (exchanged request) = true
is_exchange (stored refresh) = false
is_exchange (responded status) = false

module _ (respond : ℕ → Result ErrorKind (Unit {0})) (store : Text → Result ErrorKind (Unit {0}))
    (exchange : Fields → Result ErrorKind TokenResponse) where
  -- An ending with a sign-in: the exchange gave a refresh token and no error, the token was stored, and
  -- only then the browser was told so.
  abbrev pub SignedIn : Fields → Option Text → Ending → Type 0
  SignedIn request scope ending =
      (response : TokenResponse) × (refresh : Text) × (exchange request ≡ ok response)
      × (response.error ≡ none)
      × (response.refresh_token ≡ some refresh)
      × (store refresh ≡ ok tt)
      × (scope ≡ response.scope)
      × (ending.steps ≡ exchanged request ∷ stored refresh ∷ responded 200 ∷ [])

  unheard-ok :
      (u : Result ErrorKind (Unit {0})) (r : Result EnrollError (Option Text)) (scope : Option Text)
      → unless_unheard respond u r ≡ ok scope
      → r ≡ ok scope
  unfolding unless_unheard
  unheard-ok (ok u) r scope h = h
  unheard-ok (err e) r scope h = cc

  after_store-SignedIn :
      (request : Fields) (refresh : Text) (response : TokenResponse)
      (s : Result ErrorKind (Unit {0})) (scope : Option Text)
      → store refresh ≡ s
      → exchange request ≡ ok response
      → response.error ≡ none
      → response.refresh_token ≡ some refresh
      → (after_store respond store request refresh response.scope s).result ≡ ok scope
      → SignedIn request scope (after_store respond store request refresh response.scope s)
  unfolding after_store respond_then
  after_store-SignedIn request refresh response (err e) scope s x no_error token h = cc
  after_store-SignedIn request refresh response (ok tt) scope s x no_error token h =
      let e = unheard-ok (respond 200) (ok response.scope) scope h in
      (response, refresh, x, no_error, token, s, cc, refl)

  with_refresh-SignedIn :
      (request : Fields) (response : TokenResponse) (o : Option Text) (scope : Option Text)
      → exchange request ≡ ok response
      → response.error ≡ none
      → response.refresh_token ≡ o
      → (with_refresh respond store request response o).result ≡ ok scope
      → SignedIn request scope (with_refresh respond store request response o)
  unfolding with_refresh respond_then
  with_refresh-SignedIn request response none scope x no_error token h =
      let e = unheard-ok (respond 400) _ scope h in cc
  with_refresh-SignedIn request response (some refresh) scope x no_error token h =
      after_store-SignedIn request refresh response (store refresh) scope refl x no_error token h

  with_response-SignedIn :
      (request : Fields) (response : TokenResponse) (o : Option Text) (scope : Option Text)
      → exchange request ≡ ok response
      → response.error ≡ o
      → (with_response respond store request response o).result ≡ ok scope
      → SignedIn request scope (with_response respond store request response o)
  unfolding with_response respond_then
  with_response-SignedIn request response (some error) scope x e h =
      let f = unheard-ok (respond 400) _ scope h in cc
  with_response-SignedIn request response none scope x e h =
      with_refresh-SignedIn request response response.refresh_token scope x e refl h

  after_exchange-SignedIn :
      (request : Fields) (r : Result ErrorKind TokenResponse) (scope : Option Text)
      → exchange request ≡ r
      → (after_exchange respond store request r).result ≡ ok scope
      → SignedIn request scope (after_exchange respond store request r)
  unfolding after_exchange
  after_exchange-SignedIn request (err e) scope x h = cc
  after_exchange-SignedIn request (ok response) scope x h =
      with_response-SignedIn request response response.error scope x refl h

  -- A redirect for this enrollment, with its code.
  abbrev pub BelongsTo : (Text → Option Text) → Enrollment → Text → Text → Type 0
  BelongsTo decode e target code =
      (query : Text) × (fields : Fields) × (strip_prefix (codes "/?") target ≡ some query)
      × (parse_query decode query ≡ ok fields)
      × (one fields (codes "state") ≡ ok (some e.state))
      × (one fields (codes "error") ≡ ok none)
      × (one fields (codes "code") ≡ ok (some code))

  -- An ending spends no code and signs nobody in, or is what follows from a code.
  abbrev Follows : Enrollment → (Text → Type 0) → Ending → Type 0
  Follows e P ending =
      ((any is_exchange ending.steps ≡ false) × ((scope : Option Text) → ending.result ≢ ok scope))
      ⊎ ((code : Text) × P code
          × (ending
              ≡ after_exchange respond store (token_request e code)
                  (exchange (token_request e code))))

  refused :
      (e : Enrollment) (P : Text → Type 0) (status : ℕ) (f : EnrollError)
      → Follows e P (respond_then respond [] status (err f))
  unfolding respond_then
  refused e P status f =
      inl (refl, λ scope h. let g = unheard-ok (respond status) (err f) scope h in cc)

  failed : (e : Enrollment) (P : Text → Type 0) (f : EnrollError) → Follows e P (fail f)
  failed e P f = inl (refl, λ scope h. cc)

  with_code-Follows :
      (e : Enrollment) (P : Text → Type 0) (r : Result EnrollError (Option Text))
      → ((code : Text) → r ≡ ok (some code) → P code)
      → Follows e P (with_code respond store exchange e r)
  unfolding with_code
  with_code-Follows e P (err f) belongs = failed e P f
  with_code-Follows e P (ok none) belongs = refused e P 400 no_code
  with_code-Follows e P (ok (some code)) belongs = inr (code, belongs code refl, refl)

  with_error-Follows :
      (e : Enrollment) (P : Text → Type 0) (fields : Fields) (r : Result EnrollError (Option Text))
      → ((code : Text) → r ≡ ok none → one fields (codes "code") ≡ ok (some code) → P code)
      → Follows e P (with_error respond store exchange e fields r)
  unfolding with_error
  with_error-Follows e P fields (err f) belongs = failed e P f
  with_error-Follows e P fields (ok (some error)) belongs = refused e P 400 _
  with_error-Follows e P fields (ok none) belongs =
      with_code-Follows e P (one fields (codes "code")) (λ code h. belongs code refl h)

  is_state-eq :
      (e : Enrollment) (o : Option Text)
      → is_state respond store exchange e o ≡ true
      → o ≡ some e.state
  unfolding is_state
  is_state-eq e none h = cc
  is_state-eq e (some state) h = ap some (text_eq-eq state e.state h)

  with_state-Follows :
      (e : Enrollment) (P : Text → Type 0) (fields : Fields) (r : Result EnrollError (Option Text))
      → ((code : Text)
          → r ≡ ok (some e.state)
          → one fields (codes "error") ≡ ok none
          → one fields (codes "code") ≡ ok (some code)
          → P code)
      → Follows e P (with_state respond store exchange e fields r)
  unfolding with_state
  with_state-Follows e P fields (err f) belongs = failed e P f
  with_state-Follows e P fields (ok state) belongs =
      elim (Bool-cases (is_state respond store exchange e state)) [
        | inl b ↦ rw b (
            with_error-Follows e P fields (one fields (codes "error"))
              (λ code no_error h. belongs code (ap ok (is_state-eq e state b)) no_error h))
        | inr b ↦ rw b (refused e P 400 state_mismatch)
      ]

  with_fields-Follows :
      (decode : Text → Option Text) (e : Enrollment) (target query : Text)
      (r : Result EnrollError Fields)
      → strip_prefix (codes "/?") target ≡ some query
      → parse_query decode query ≡ r
      → Follows e (BelongsTo decode e target) (with_fields respond store exchange e r)
  unfolding with_fields
  with_fields-Follows decode e target query (err f) q p = failed e (BelongsTo decode e target) f
  with_fields-Follows decode e target query (ok fields) q p =
      with_state-Follows e (BelongsTo decode e target) fields (one fields (codes "state"))
        (λ code state no_error h. (query, fields, q, p, state, no_error, h))

  with_query-Follows :
      (decode : Text → Option Text) (e : Enrollment) (target : Text) (o : Option Text)
      → strip_prefix (codes "/?") target ≡ o
      → Follows e (BelongsTo decode e target) (with_query respond store exchange decode e o)
  unfolding with_query
  with_query-Follows decode e target none q = failed e (BelongsTo decode e target) _
  with_query-Follows decode e target (some query) q =
      with_fields-Follows decode e target query (parse_query decode query) q refl

  complete-Follows :
      (decode : Text → Option Text) (e : Enrollment) (target : Text)
      → Follows e (BelongsTo decode e target) (complete respond store exchange decode e target)
  unfolding complete
  complete-Follows decode e target =
      with_query-Follows decode e target (strip_prefix (codes "/?") target) refl

  -- A code is spent only if the redirect goes to the root path and its query names, once each, the state
  -- of this enrollment and the code, and no error. If the enrollment ends well, then that code was
  -- exchanged, the exchange gave a refresh token and no error, the token was stored, the browser was
  -- told of success after that, and nothing else was done.
  pub complete-BelongsTo :
      (decode : Text → Option Text) (e : Enrollment) (target : Text)
      → (any is_exchange (complete respond store exchange decode e target).steps ≡ true
          → (code : Text) × BelongsTo decode e target code)
        × ((scope : Option Text)
            → (complete respond store exchange decode e target).result ≡ ok scope
            → (code : Text) × BelongsTo decode e target code
              × SignedIn
                  (token_request e code)
                  scope
                  (complete respond store exchange decode e target))
  complete-BelongsTo decode e target = by_ending (complete-Follows decode e target)
    where
      absurd_of :
          any is_exchange (complete respond store exchange decode e target).steps ≡ false
          → any is_exchange (complete respond store exchange decode e target).steps ≡ true
          → (code : Text) × BelongsTo decode e target code
      absurd_of f g = cc

      by_ending :
          Follows e (BelongsTo decode e target) (complete respond store exchange decode e target)
          → (any is_exchange (complete respond store exchange decode e target).steps ≡ true
              → (code : Text) × BelongsTo decode e target code)
            × ((scope : Option Text)
                → (complete respond store exchange decode e target).result ≡ ok scope
                → (code : Text) × BelongsTo decode e target code
                  × SignedIn
                      (token_request e code)
                      scope
                      (complete respond store exchange decode e target))
      by_ending (inl (unspent, no_end)) =
          (λ h. absurd_of unspent h, λ scope h. absurd (no_end scope h))
      by_ending (inr (code, belongs, ending)) = (
        λ h. (code, belongs),
        λ scope h. (
          code,
          belongs,
          rw ending (
              after_exchange-SignedIn (token_request e code) (exchange (token_request e code)) scope
                refl (sym (ap (λ (x : Ending). x.result) ending) ∙ h)),
        ),
      )
