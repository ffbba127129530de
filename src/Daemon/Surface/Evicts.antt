-- ===== src/Daemon/Surface/Evicts.antt =====
-- An eviction from the bus to the daemon and back.
use one_drive_hydration.Prelude.{
  ℕ, ◌≡◌, refl, sym, ◌∙◌, ap, true, false, Option, List, [], ◌∷◌, ◌++◌, any, ErrorKind, Result, ok,
  err,
}
use one_drive_hydration.Text.{Text, codes}
use one_drive_hydration.Text.Ends.{trim_end_matches-append}
use one_drive_hydration.Daemon.Control.{is_forbidden_char, is_line_end, received}
use one_drive_hydration.Daemon.Bus.{EvictReply, reclaimed, kept, failed}
use one_drive_hydration.Daemon.Bus.Evict.{evict_text, Fits, parse_evict_reply-evict_text}
use one_drive_hydration.Daemon.Jobs.Paths.{PathParts}
use one_drive_hydration.Daemon.Surface.{
  Around, Caller, BusError, was_kept, has_failed, said, Value, bytes, caller_permitted, evict,
  evict_value, evict_answer, permitted_call, call,
}

-- The last character of a reply is no line end.
abbrev pub EndsInLine : EvictReply → Type 0
EndsInLine r = (s : Text) × (d : ℕ) × (evict_text r ≡ s ++ d ∷ []) × (is_line_end d ≡ false)

received_reply :
    (s : Text) (d : ℕ)
    → is_line_end d ≡ false
    → received (ok ((s ++ d ∷ []) ++ 10 ∷ [])) ≡ ok (s ++ d ∷ [])
unfolding received
received_reply [] d h = ap ok (trim_end_matches-append is_line_end [] d 10 h refl)
received_reply (c ∷ s) d h = ap ok (trim_end_matches-append is_line_end (c ∷ s) d 10 h refl)

-- What is received of a reply and its newline.
received-evict_text :
    (reply : Result ErrorKind Text) (r : EvictReply)
    → EndsInLine r
    → reply ≡ ok (evict_text r ++ 10 ∷ [])
    → received reply ≡ ok (evict_text r)
received-evict_text reply r (s, d, whole, end) answer =
    ap received (answer ∙ ap (λ t. ok (t ++ 10 ∷ [])) whole)
    ∙ received_reply s d end
    ∙ ap ok (sym whole)

-- What the caller of an eviction gets for a reply.
abbrev pub promised : EvictReply → Result BusError Value
promised (reclaimed n) = ok (bytes n)
promised (kept reason) = err (was_kept reason)
promised (failed detail) = err (has_failed (said detail))

evict_value-promised : (r : EvictReply) → evict_value r ≡ promised r
evict_value-promised (reclaimed n) = refl
evict_value-promised (kept reason) = refl
evict_value-promised (failed detail) = refl

module _ (canonicalize : Text → Result ErrorKind PathParts) (to_json : List Text → Text)
    (from_json : Text → Option (List Text)) where
  -- If a permitted caller evicts a path that is not empty and has no line end and no NUL, and the
  -- daemon answers with the text of a reply and a newline, where a number fits 64 bits and the text
  -- does not end in a line end, then exactly the `evict` command for the path was written, and the
  -- caller gets that reply: the number of reclaimed bytes, the error `Kept` with its reason, or the
  -- error `Failed` with its detail.
  pub call-evict :
      (require_uid : Option ℕ) (caller : Caller) (around : Around) (c : ℕ) (path : Text)
      (r : EvictReply)
      → caller_permitted require_uid caller ≡ true
      → any is_forbidden_char (c ∷ path) ≡ false
      → Fits r
      → EndsInLine r
      → around.socket (codes "evict " ++ (c ∷ path) ++ 10 ∷ []) ≡ ok (evict_text r ++ 10 ∷ [])
      → call canonicalize to_json from_json require_uid caller around (evict (c ∷ path))
        ≡ record { sent = (codes "evict " ++ (c ∷ path) ++ 10 ∷ []) ∷ []; result = promised r }
  unfolding call permitted_call evict_answer is_forbidden_char
  call-evict require_uid caller around c path r permitted clean fits ends answer = rw permitted (
      rw clean (
        ap
          (λ t. record {
            sent = (codes "evict " ++ (c ∷ path) ++ 10 ∷ []) ∷ [];
            result = evict_answer t;
          })
          (received-evict_text _ r ends answer)
        ∙ ap
            (λ t. record {
              sent = (codes "evict " ++ (c ∷ path) ++ 10 ∷ []) ∷ [];
              result = evict_value t;
            })
            (parse_evict_reply-evict_text r fits)
        ∙ ap (λ t. record { sent = (codes "evict " ++ (c ∷ path) ++ 10 ∷ []) ∷ []; result = t })
            (evict_value-promised r)))
