-- ===== src/Retention.antt =====
-- server/commitlog/delete_cleaner.go: retention by deleting whole segments. The log's segments are
-- a list, oldest first. Whether a segment's files can be deleted is a parameter.
pub mod Bound
pub mod Order
pub mod Loss
mod Tests
use liftbridge.Common.{
  ℕ, suc, ◌+◌, ℤ, pos, ltb_ℤ, eqb_ℤ, Bool, ◌&&◌, List, [], ◌∷◌, ◌++◌, if◌then◌else◌, length, leb,
}
use liftbridge.Segment.{Segment, message_count}
use mathlib.Core.List.{reverse}

-- `Retention`, with the age cutoff that `computeTTL` gives at the time of the call.
pub record Limits : Type 0 where
  pub bytes : ℤ
  pub messages : ℤ
  pub age : ℤ
  pub ttl : ℤ

-- The segments that stay and those that were deleted, in the order of their deletion. A failure
-- and a panic leave some segments deleted too.
pub data Outcome : Type 0 where
  kept : List Segment → List Segment → Outcome
  failed : List Segment → Outcome
  panicked : List Segment → Outcome

-- Goes on with the segments that stayed.
abbrev pub and_then : Outcome → (List Segment → List Segment → Outcome) → Outcome
and_then (kept stay gone) f = f stay gone
and_then (failed gone) f = failed gone
and_then (panicked gone) f = panicked gone

no_retention_limits : Limits → Bool
no_retention_limits limits =
    eqb_ℤ limits.bytes (pos 0) && eqb_ℤ limits.messages (pos 0) && eqb_ℤ limits.age (pos 0)

module _ (deletes : Segment → Bool) where
  -- Deletes the segments in order, and keeps `stay` if all deletions succeed.
  unfoldable pub delete_all : List Segment → List Segment → List Segment → Outcome
  delete_all [] stay gone = kept stay gone
  delete_all (s ∷ ss) stay gone =
      let rest = delete_all ss stay (gone ++ s ∷ []) in if deletes s then rest else failed gone

  -- The two loops from the newest segment back: the first collects what fits, the second deletes.
  unfoldable pub limit_loop :
      (Segment → ℕ) → ℤ → List Segment → ℕ → List Segment → List Segment → Outcome
  limit_loop measure limit [] total stay gone = kept stay gone
  limit_loop measure limit (s ∷ older) total stay gone =
      let rest = limit_loop measure limit older (total + measure s) (s ∷ stay) gone in
      if ltb_ℤ limit (pos (total + measure s)) then delete_all (s ∷ older) stay gone else rest

  unfoldable pub apply_messages_limit : ℤ → List Segment → List Segment → Outcome
  apply_messages_limit limit segments gone =
      if leb (length segments) 1
      then kept segments gone
      else limit_loop message_count limit (reverse segments) 0 [] gone

  -- The last segment is taken out of an empty slice: a panic.
  bytes_from : ℤ → List Segment → List Segment → Outcome
  bytes_from limit [] gone = panicked gone
  bytes_from limit (last ∷ older) gone =
      limit_loop (λ s. s.position) limit older last.position (last ∷ []) gone

  unfoldable pub apply_bytes_limit : ℤ → List Segment → List Segment → Outcome
  unfolding bytes_from
  apply_bytes_limit limit segments gone = bytes_from limit (reverse segments) gone

  unfoldable pub apply_age_limit : ℤ → List Segment → List Segment → Outcome
  apply_age_limit ttl [] gone = kept [] gone
  apply_age_limit ttl (s ∷ []) gone = kept (s ∷ []) gone
  apply_age_limit ttl (s ∷ t ∷ ss) gone =
      let rest = apply_age_limit ttl (t ∷ ss) (gone ++ s ∷ []) in
      if ltb_ℤ s.last_write_time ttl
      then (if deletes s then rest else failed gone)
      else kept (s ∷ t ∷ ss) gone

  -- The three stages of `Clean`, each behind its test.
  unfoldable pub limit_age : Limits → List Segment → List Segment → Outcome
  limit_age limits stay gone =
      if ltb_ℤ (pos 0) limits.age then apply_age_limit limits.ttl stay gone else kept stay gone

  unfoldable pub limit_messages : Limits → List Segment → List Segment → Outcome
  limit_messages limits stay gone =
      if ltb_ℤ (pos 0) limits.messages
      then apply_messages_limit limits.messages stay gone
      else kept stay gone

  unfoldable pub limit_bytes : Limits → List Segment → List Segment → Outcome
  limit_bytes limits stay gone =
      if ltb_ℤ (pos 0) limits.bytes
      then apply_bytes_limit limits.bytes stay gone
      else kept stay gone

  -- `Clean`.
  unfoldable pub clean : Limits → List Segment → Outcome
  unfolding no_retention_limits
  clean limits [] = kept [] []
  clean limits (s ∷ ss) =
      if no_retention_limits limits
      then kept (s ∷ ss) []
      else and_then (and_then (limit_age limits (s ∷ ss) []) (limit_messages limits))
          (limit_bytes limits)
