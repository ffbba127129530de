-- ===== src/Daemon/Bus/Evict.antt =====
-- The reply to `evict`, as a caller reads it.
use one_drive_hydration.Prelude.{ℕ, ◌<◌, ◌≡◌, refl, ◌∙◌, ap, none, some, ◌++◌, arith}
use one_drive_hydration.Text.{Text, codes, strip_prefix}
use one_drive_hydration.Text.Ends.{strip_suffix-append}
use one_drive_hydration.Text.Number.{decimal}
use one_drive_hydration.Text.Number.RoundTrip.{parse_unsigned-decimal}
use one_drive_hydration.Daemon.Bus.{
  u64, EvictReply, reclaimed, kept, failed, number_of, reclaimed_bytes, evict_reply,
  parse_evict_reply,
}

-- What the daemon writes for a reply.
unfoldable pub evict_text : EvictReply → Text
evict_text (reclaimed n) = codes "reclaimed " ++ (decimal n ++ codes " bytes")
evict_text (kept reason) = codes "kept: " ++ reason
evict_text (failed error) = codes "error: " ++ error

abbrev pub Fits : EvictReply → Type 0
Fits (reclaimed n) = n < u64
Fits _ = Unit

reclaimed_bytes-decimal :
    (n : ℕ) → n < u64 → reclaimed_bytes (some (decimal n ++ codes " bytes")) ≡ some n
unfolding reclaimed_bytes number_of
reclaimed_bytes-decimal n fits =
    ap number_of (strip_suffix-append (decimal n) (codes " bytes"))
    ∙ parse_unsigned-decimal u64 n (omega arith) fits

-- Each reply is read back from its text, if the number of bytes is a `u64`.
pub parse_evict_reply-evict_text : (r : EvictReply) → Fits r → parse_evict_reply (evict_text r) ≡ r
unfolding parse_evict_reply evict_text evict_reply strip_prefix reclaimed_bytes
parse_evict_reply-evict_text (reclaimed n) fits =
    ap (λ o. evict_reply (evict_text (reclaimed n)) o none none) (reclaimed_bytes-decimal n fits)
parse_evict_reply-evict_text (kept reason) fits = refl
parse_evict_reply-evict_text (failed error) fits = refl
