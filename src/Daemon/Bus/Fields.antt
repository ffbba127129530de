-- ===== src/Daemon/Bus/Fields.antt =====
-- What a state line leaves in each field, whatever the order of its tokens.
use one_drive_hydration.Prelude.{
  ℕ, ◌≡◌, refl, sym, ◌∙◌, ap, Bool, true, false, not, ◌||◌, Option, none, some, List, [], ◌∷◌, map,
  any, unwrap_or, ◌==◌,
}
use one_drive_hydration.Text.{Text, codes, split}
use one_drive_hydration.Text.Words.{split_whitespace}
use one_drive_hydration.Text.Ends.{rsplit_once}
use one_drive_hydration.Daemon.Bus.{
  DaemonState, Key, unsent_key, excluded_key, exposures_key, downloading_key, scanning_key, set_key,
  assignment, assign, apply_tokens, halves, paths_of, set_uploading, apply_state_line,
}
use one_drive_hydration.Daemon.Bus.Keys.{
  value_of, is_named, key_eq, value_for, name_of, value_for-value_of, assigns, any-assigns,
}

newer : Option ℕ → Option ℕ → Option ℕ
newer earlier none = earlier
newer earlier (some v) = some v

-- The number of the last token of this name that has one.
unfoldable pub last_of : Text → List Text → Option ℕ
unfolding value_of newer
last_of name [] = none
last_of name (token ∷ tokens) = newer (value_of name token) (last_of name tokens)

flag_or : Option ℕ → Bool → Bool
flag_or none b = b
flag_or (some v) b = not (v == 0)

-- Each number by the last token of its name, and `scanning` as a flag.
unfoldable pub with_numbers : List Text → DaemonState → DaemonState
unfolding last_of flag_or
with_numbers tokens s = record {
  daemon_running = s.daemon_running;
  unsent = unwrap_or (last_of (codes "unsent") tokens) s.unsent;
  excluded = unwrap_or (last_of (codes "excluded") tokens) s.excluded;
  exposures = unwrap_or (last_of (codes "exposures") tokens) s.exposures;
  downloading = unwrap_or (last_of (codes "downloading") tokens) s.downloading;
  indexing = flag_or (last_of (codes "scanning") tokens) s.indexing;
  uploading = s.uploading;
}

-- The last value that the tokens assign to a key, as the loop reads them.
unfoldable last_value : List Text → Key → Option ℕ
unfolding value_for newer
last_value [] key = none
last_value (token ∷ tokens) key = newer (value_for key (assignment token)) (last_value tokens key)

-- The numbers by their last values, and what no token touches as it was.
unfoldable with_last : (Key → Option ℕ) → DaemonState → DaemonState
unfolding flag_or
with_last last s = record {
  daemon_running = s.daemon_running;
  unsent = unwrap_or (last unsent_key) s.unsent;
  excluded = unwrap_or (last excluded_key) s.excluded;
  exposures = unwrap_or (last exposures_key) s.exposures;
  downloading = unwrap_or (last downloading_key) s.downloading;
  indexing = flag_or (last scanning_key) s.indexing;
  uploading = s.uploading;
}

unwrap_or-newer : (e o : Option ℕ) (d : ℕ) → unwrap_or (newer e o) d ≡ unwrap_or o (unwrap_or e d)
unfolding newer
unwrap_or-newer e none d = refl
unwrap_or-newer e (some v) d = refl

flag_or-newer : (e o : Option ℕ) (d : Bool) → flag_or (newer e o) d ≡ flag_or o (flag_or e d)
unfolding newer flag_or
flag_or-newer e none d = refl
flag_or-newer e (some v) d = refl

with_last-newer :
    (a : Option (Key × ℕ)) (last : Key → Option ℕ) (s : DaemonState)
    → with_last (λ key. newer (value_for key a) (last key)) s ≡ with_last last (assign a s)
unfolding with_last assign set_key value_for key_eq
with_last-newer none last s = simp (unwrap_or-newer, flag_or-newer)
with_last-newer (some (unsent_key, v)) last s = simp (unwrap_or-newer, flag_or-newer)
with_last-newer (some (excluded_key, v)) last s = simp (unwrap_or-newer, flag_or-newer)
with_last-newer (some (exposures_key, v)) last s = simp (unwrap_or-newer, flag_or-newer)
with_last-newer (some (downloading_key, v)) last s = simp (unwrap_or-newer, flag_or-newer)
with_last-newer (some (scanning_key, v)) last s = simp (unwrap_or-newer, flag_or-newer)

with_last-untouched : (s : DaemonState) → with_last (λ key. none) s ≡ s
unfolding with_last
with_last-untouched s = refl

apply_tokens-state :
    (tokens : List Text) (b : Bool) (s : DaemonState)
    → (apply_tokens tokens (b, s)).1 ≡ with_last (last_value tokens) s
unfolding apply_tokens last_value
apply_tokens-state [] b s = sym (with_last-untouched s)
apply_tokens-state (token ∷ tokens) b s =
    apply_tokens-state tokens _ (assign (assignment token) s)
    ∙ sym (with_last-newer (assignment token) (last_value tokens) s)

or_any_assoc : (a b c : Bool) → ((a || b) || c) ≡ (a || (b || c))
or_any_assoc true b c = refl
or_any_assoc false b c = refl

or_false : (b : Bool) → (b || false) ≡ b
or_false true = refl
or_false false = refl

apply_tokens-recognized :
    (tokens : List Text) (b : Bool) (s : DaemonState)
    → (apply_tokens tokens (b, s)).0 ≡ (b || any assigns tokens)
unfolding apply_tokens
apply_tokens-recognized [] b s = sym (or_false b)
apply_tokens-recognized (token ∷ tokens) b s =
    apply_tokens-recognized tokens _ _ ∙ or_any_assoc b (assigns token) (any assigns tokens)

last_value-last_of :
    (key : Key) (tokens : List Text) → last_value tokens key ≡ last_of (name_of key) tokens
unfolding last_value last_of
last_value-last_of key [] = refl
last_value-last_of key (token ∷ tokens) =
    ap (λ v. newer v (last_value tokens key)) (value_for-value_of key token)
    ∙ ap (newer (value_of (name_of key) token)) (last_value-last_of key tokens)

with_last-with_numbers :
    (tokens : List Text) (s : DaemonState) → with_last (last_value tokens) s ≡ with_numbers tokens s
unfolding with_last with_numbers
with_last-with_numbers tokens s = simp (
  last_value-last_of unsent_key tokens,
  last_value-last_of excluded_key tokens,
  last_value-last_of exposures_key tokens,
  last_value-last_of downloading_key tokens,
  last_value-last_of scanning_key tokens,
)

-- The loop over the tokens, by their names.
apply_tokens-described :
    (tokens : List Text) (s : DaemonState)
    → apply_tokens tokens (false, s) ≡ (any is_named tokens, with_numbers tokens s)
apply_tokens-described tokens s =
    ap (λ b. (b, (apply_tokens tokens (false, s)).1))
      (apply_tokens-recognized tokens false s ∙ any-assigns tokens)
    ∙ ap (λ t. (any is_named tokens, t))
        (apply_tokens-state tokens false s ∙ with_last-with_numbers tokens s)

module _ (decode_path : Text → Text) where
  -- Nothing behind ` uploading=` is no path; else one path stands between any two spaces.
  abbrev pub uploads : Text → List Text
  uploads [] = []
  uploads (c ∷ value) = map decode_path (split 32 (c ∷ value))

  -- A line, by what its last ` uploading=` parts: whether it is recognized, and each field.
  unfoldable pub described : Text → Option (Text × Text) → DaemonState → Bool × DaemonState
  unfolding is_named with_numbers
  described line none s =
      let tokens = split_whitespace line in (any is_named tokens, with_numbers tokens s)
  described line (some (head, value)) s =
      (true, record (with_numbers (split_whitespace head) s) { uploading = uploads value })

  paths_of-uploads : (value : Text) → paths_of decode_path value ≡ uploads value
  unfolding paths_of
  paths_of-uploads [] = refl
  paths_of-uploads (c ∷ value) = refl

  parted :
      (line : Text) (r : Option (Text × Text)) (s : DaemonState)
      → set_uploading decode_path
          (halves line r).1
          (apply_tokens (split_whitespace (halves line r).0) (false, s))
        ≡ described line r s
  unfolding set_uploading described
  parted line none s = apply_tokens-described (split_whitespace line) s
  parted line (some (head, value)) s =
      ap (set_uploading decode_path (some value)) (apply_tokens-described (split_whitespace head) s)
      ∙ ap (λ paths. (true, record (with_numbers (split_whitespace head) s) { uploading = paths }))
          (paths_of-uploads value)

  -- A state line leaves each of the five numbers as the last token of its name before the last
  -- ` uploading=` gives it, or as it was if none does; `scanning` becomes a flag. A token without `=`,
  -- with another name, or with a value that is no number of 64 bits assigns nothing. What stands
  -- behind that ` uploading=` becomes the paths, none if nothing stands there, and the flag for the
  -- running daemon stays. The line is recognized exactly if a token assigns something or
  -- ` uploading=` is there.
  pub apply_state_line-described :
      (line : Text) (s : DaemonState)
      → apply_state_line decode_path line s
        ≡ described line (rsplit_once (codes " uploading=") line) s
  unfolding apply_state_line
  apply_state_line-described line s = parted line (rsplit_once (codes " uploading=") line) s
