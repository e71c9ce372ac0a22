-- ===== src/Retention/Loss.antt =====
-- Where retention deletes the active segment.
use mathlib.Core.List.{reverse}
use liftbridge.Common.{
  ◌+◌, ◌≤◌, ◌≡◌, refl, ap, ◌∙◌, ℤ, pos, ltb_ℤ, ◌<ℤ◌, lt→ltb_ℤ, Bool, true, List, [], ◌∷◌, ◌++◌,
  append-nil, append_assoc, false, arith, length, leb,
}
use liftbridge.Segment.{Segment, message_count}
use liftbridge.Retention.{
  Limits, kept, panicked, delete_all, limit_loop, apply_messages_limit, apply_bytes_limit,
  bytes_from, limit_age, limit_messages, limit_bytes, clean, no_retention_limits,
}

delete_all_fine :
    (deletes : Segment → Bool) (ss stay gone : List Segment)
    → ((s : Segment) → deletes s ≡ true)
    → delete_all deletes ss stay gone ≡ kept stay (gone ++ ss)
unfolding delete_all
delete_all_fine deletes [] stay gone fine = rw append-nil
delete_all_fine deletes (s ∷ ss) stay gone fine = rw (fine s) (
    delete_all_fine deletes ss stay (gone ++ s ∷ []) fine
    ∙ ap (kept stay) (append_assoc gone (s ∷ []) ss))

-- If the active segment alone has more messages than the limit allows, and it is not the only
-- segment, the message limit deletes every segment, the active one first.
pub messages_limit_deletes_all :
    (deletes : Segment → Bool) (limit : ℤ) (segments : List Segment) (last : Segment)
    (older gone : List Segment)
    → ((s : Segment) → deletes s ≡ true)
    → reverse segments ≡ last ∷ older
    → 2 ≤ length segments
    → limit <ℤ pos (message_count last)
    → apply_messages_limit deletes limit segments gone ≡ kept [] (gone ++ last ∷ older)
unfolding apply_messages_limit limit_loop
messages_limit_deletes_all deletes limit segments last older gone fine e two over =
    let many : leb (length segments) 1 ≡ false = ground arith in
    rw (many, e, lt→ltb_ℤ limit (pos (0 + message_count last)) (omega arith))
      (delete_all_fine deletes (last ∷ older) [] gone fine)

-- Retention panics on a log of at least two segments whose active segment has more messages than the
-- message limit, where there are a message limit and a byte limit, there is no age limit, and every
-- segment can be deleted: the message limit deletes all segments, the active one included, and the byte
-- limit then takes the last segment of none.
pub clean_panics :
    (deletes : Segment → Bool) (limits : Limits) (segments : List Segment) (last : Segment)
    (older : List Segment)
    → ((s : Segment) → deletes s ≡ true)
    → reverse segments ≡ last ∷ older
    → 2 ≤ length segments
    → limits.age ≡ pos 0
    → pos 0 <ℤ limits.messages
    → limits.messages <ℤ pos (message_count last)
    → pos 0 <ℤ limits.bytes
    → clean deletes limits segments ≡ panicked (last ∷ older)
unfolding clean no_retention_limits limit_age limit_messages limit_bytes apply_bytes_limit
    bytes_from
clean_panics deletes limits [] last older fine e two a m over b = absurd (omega arith)
clean_panics deletes limits (s ∷ ss) last older fine e two a m over b =
    let set : no_retention_limits limits ≡ false = ground arith in
    let aged : ltb_ℤ (pos 0) limits.age ≡ false = rw a refl in
    let by_age : limit_age deletes limits (s ∷ ss) [] ≡ kept (s ∷ ss) [] =
      rw (limit_age, aged) refl in
    let by_messages : limit_messages deletes limits (s ∷ ss) [] ≡ kept [] (last ∷ older) =
      rw (limit_messages, lt→ltb_ℤ (pos 0) limits.messages m)
        (messages_limit_deletes_all deletes limits.messages (s ∷ ss) last older [] fine e two
          over) in
    let by_bytes : limit_bytes deletes limits [] (last ∷ older) ≡ panicked (last ∷ older) =
      rw (limit_bytes, lt→ltb_ℤ (pos 0) limits.bytes b) refl in
    rw (set, by_age, by_messages, by_bytes)
