-- ===== src/Daemon/Enroll.antt =====
-- `BrowserEnrollment` of crates/onedrive-daemon/src/pkce.rs: what is made of the browser's redirect. The
-- percent decoding, the exchange at the token endpoint, the secure store and the answers to the browser
-- are arguments.
pub mod Guarded
use one_drive_hydration.Prelude.{
  ℕ, zero, suc, Bool, true, false, not, ◌&&◌, ◌||◌, Option, none, some, List, [], ◌∷◌, ◌++◌,
  is_empty, ltb, leb, map, unwrap_or, ◌==◌, if◌then◌else◌, Result, ok, err, ErrorKind,
}
use one_drive_hydration.Text.{Text, codes, text_eq, strip_prefix, split, split_once}
use one_drive_hydration.Text.Words.{split_whitespace}
use one_drive_hydration.Text.Ends.{trim_end_matches}

pub record Enrollment : Type 0 where
  pub redirect_uri : Text
  pub verifier : Text
  pub state : Text
  pub client_id : Text

pub record TokenResponse : Type 0 where
  pub refresh_token : Option Text
  pub scope : Option Text
  pub error : Option Text
  pub error_description : Option Text

pub data EnrollError : Type 0 where
  not_get no_target malformed_request wrong_path not_utf8 repeated_field state_mismatch no_code
        no_refresh_token :
      EnrollError
  sign_in_refused exchange_refused : Text → Text → EnrollError
  exchange_failed store_failed respond_failed : ErrorKind → EnrollError

abbrev pub Fields : Type 0
Fields = List (Text × Text)

-- The words of the request line.
target_of : List Text → Result EnrollError Text
unfolding text_eq
target_of [] = err not_get
target_of (method ∷ []) = if text_eq method (codes "GET") then err no_target else err not_get
target_of (method ∷ target ∷ []) =
    if text_eq method (codes "GET") then err malformed_request else err not_get
target_of (method ∷ target ∷ version ∷ more) =
    if not (text_eq method (codes "GET"))
    then err not_get
    else if not (text_eq version (codes "HTTP/1.1")) || not (is_empty more)
    then err malformed_request
    else ok target

-- `read_request_target`, from the first line on.
unfoldable pub request_target : Text → Result EnrollError Text
unfolding target_of split_whitespace trim_end_matches
request_target line = target_of (split_whitespace (trim_end_matches (λ c. c == 13) line))

is_control : ℕ → Bool
is_control c = ltb c 32 || (leb 127 c && ltb c 160)

take : ℕ → Text → Text
take zero s = []
take (suc n) [] = []
take (suc n) (c ∷ s) = c ∷ take n s

unfoldable pub safe_diagnostic : Text → Text
unfolding take is_control
safe_diagnostic value = map (λ c. if is_control c then 32 else c) (take 512 value)

-- The one value of a field; a field that is there twice is refused.
unfoldable pub one : Fields → Text → Result EnrollError (Option Text)
unfolding text_eq
one [] key = ok none
one ((name, value) ∷ fields) key =
    let rest = one fields key in
    if not (text_eq name key) then rest else elim rest [
      | ok none ↦ ok (some value)
      | ok (some other) ↦ err repeated_field
      | err e ↦ err e
    ]

key_and_value : Text → Option (Text × Text) → Text × Text
key_and_value part none = (part, [])
key_and_value part (some pair) = pair

module _ (decode : Text → Option Text) where
  decode_raw : Text → Option Text
  decode_raw raw = decode (map (λ c. if c == 43 then 32 else c) raw)

  add_field : Option Text → Option Text → Result EnrollError Fields → Result EnrollError Fields
  add_field (some key) (some value) (ok fields) = ok ((key, value) ∷ fields)
  add_field (some key) (some value) (err e) = err e
  add_field _ _ rest = err not_utf8

  fields_of : List Text → Result EnrollError Fields
  unfolding decode_raw add_field key_and_value split_once
  fields_of [] = ok []
  fields_of (part ∷ parts) =
      let rest = fields_of parts in
      let (key, value) = key_and_value part (split_once (codes "=") part) in
      if is_empty part then rest else add_field (decode_raw key) (decode_raw value) rest

  unfoldable pub parse_query : Text → Result EnrollError Fields
  unfolding fields_of split
  parse_query query = fields_of (split 38 query)

-- What the enrollment does, in order.
pub data Step : Type 0 where
  exchanged : Fields → Step
  stored : Text → Step
  responded : ℕ → Step

pub record Ending : Type 0 where
  pub steps : List Step
  pub result : Result EnrollError (Option Text)

abbrev pub token_request : Enrollment → Text → Fields
token_request e code =
    (codes "client_id", e.client_id)
    ∷ (codes "grant_type", codes "authorization_code")
    ∷ (codes "code", code)
    ∷ (codes "redirect_uri", e.redirect_uri)
    ∷ (codes "code_verifier", e.verifier)
    ∷ (codes "scope", codes "offline_access Files.ReadWrite.All User.Read")
    ∷ []

abbrev pub fail : EnrollError → Ending
fail e = record { steps = []; result = err e }

module _ (respond : ℕ → Result ErrorKind (Unit {0})) where
  unless_unheard :
      Result ErrorKind (Unit {0})
      → Result EnrollError (Option Text)
      → Result EnrollError (Option Text)
  unless_unheard (ok u) r = r
  unless_unheard (err e) r = err (respond_failed e)

  -- An answer to the browser, and then the result.
  unfoldable pub respond_then : List Step → ℕ → Result EnrollError (Option Text) → Ending
  unfolding unless_unheard
  respond_then steps status r = record {
    steps = steps ++ responded status ∷ [];
    result = unless_unheard (respond status) r;
  }

  module _ (store : Text → Result ErrorKind (Unit {0})) where
    unfoldable pub after_store : Fields → Text → Option Text → Result ErrorKind (Unit {0}) → Ending
    unfolding respond_then
    after_store request refresh scope (err e) = record {
      steps = exchanged request ∷ stored refresh ∷ responded 500 ∷ [];
      result = err (store_failed e);
    }
    after_store request refresh scope (ok u) =
        respond_then (exchanged request ∷ stored refresh ∷ []) 200 (ok scope)

    with_refresh : Fields → TokenResponse → Option Text → Ending
    unfolding respond_then after_store
    with_refresh request response none =
        respond_then (exchanged request ∷ []) 400 (err no_refresh_token)
    with_refresh request response (some refresh) =
        after_store request refresh response.scope (store refresh)

    with_response : Fields → TokenResponse → Option Text → Ending
    unfolding respond_then with_refresh safe_diagnostic
    with_response request response (some error) = respond_then (exchanged request ∷ []) 400 (
        err (
          exchange_refused (safe_diagnostic error)
            (safe_diagnostic (unwrap_or response.error_description (codes "no description")))))
    with_response request response none = with_refresh request response response.refresh_token

    unfoldable pub after_exchange : Fields → Result ErrorKind TokenResponse → Ending
    unfolding with_response
    after_exchange request (err e) = record {
      steps = exchanged request ∷ responded 500 ∷ [];
      result = err (exchange_failed e);
    }
    after_exchange request (ok response) = with_response request response response.error

    module _ (exchange : Fields → Result ErrorKind TokenResponse) where
      with_code : Enrollment → Result EnrollError (Option Text) → Ending
      unfolding after_exchange respond_then
      with_code e (err f) = fail f
      with_code e (ok none) = respond_then [] 400 (err no_code)
      with_code e (ok (some code)) =
          after_exchange (token_request e code) (exchange (token_request e code))

      described : Text → Result EnrollError (Option Text) → EnrollError
      described error (err f) = f
      described error (ok description) =
          sign_in_refused (safe_diagnostic error)
            (safe_diagnostic (unwrap_or description (codes "no description")))

      with_error : Enrollment → Fields → Result EnrollError (Option Text) → Ending
      unfolding with_code respond_then described one
      with_error e fields (err f) = fail f
      with_error e fields (ok (some error)) =
          respond_then [] 400 (err (described error (one fields (codes "error_description"))))
      with_error e fields (ok none) = with_code e (one fields (codes "code"))

      is_state : Enrollment → Option Text → Bool
      unfolding text_eq
      is_state e none = false
      is_state e (some state) = text_eq state e.state

      with_state : Enrollment → Fields → Result EnrollError (Option Text) → Ending
      unfolding with_error respond_then is_state one
      with_state e fields (err f) = fail f
      with_state e fields (ok state) =
          if not (is_state e state)
          then respond_then [] 400 (err state_mismatch)
          else with_error e fields (one fields (codes "error"))

      with_fields : Enrollment → Result EnrollError Fields → Ending
      unfolding with_state one
      with_fields e (err f) = fail f
      with_fields e (ok fields) = with_state e fields (one fields (codes "state"))

      with_query : (Text → Option Text) → Enrollment → Option Text → Ending
      unfolding with_fields parse_query
      with_query decode e none = fail wrong_path
      with_query decode e (some query) = with_fields e (parse_query decode query)

      -- `complete_with` from the target of the redirect on.
      unfoldable pub complete : (Text → Option Text) → Enrollment → Text → Ending
      unfolding with_query
      complete decode e target = with_query decode e (strip_prefix (codes "/?") target)
