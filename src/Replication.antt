-- ===== src/Replication.antt =====
-- A round of replication: the leader's response, as server/replicator.go sends it, and what
-- handleReplicationResponse of server/partition.go makes of its bytes on the follower.
pub mod Stored
pub mod Round
pub mod Sequence
pub mod CatchUp
mod Tests
use liftbridge.Common.{
  ℕ, ◌+◌, ◌==◌, ℤ, pos, ◌+ℤ◌, Bool, true, false, not, List, [], ◌∷◌, ltb_ℤ, if◌then◌else◌, length,
  take,
}
use liftbridge.Decimal.{Bytes}
use liftbridge.Epochs.{Disk}
use liftbridge.Segment.{Record}
use liftbridge.Log.{newest_offset, set_high_watermark}
use liftbridge.Envelope.{Result, ok, error, panicked, int64, unmarshal_replication_response}
use liftbridge.Envelope.BigEndian.{read_be}
use liftbridge.MessageSet.{Parsed, parsed, endless, parse_message_set}
use liftbridge.MessageSet
use liftbridge.Partition.{
  Partition, Payload, empty_data, too_short, messages, Response, replicated, panicked_on_append,
  never_returns, handle_replication_response,
}
use liftbridge.Partition.Queue.{QueueOps}

-- What a follower does with the bytes of a response; it can panic on an envelope too.
pub data Received (Q : Type 0) : Type 0 where
  handled : Response Q → Received Q
  crashed : Received Q

payload_of : Bytes → List Record → Payload
payload_of bs (r ∷ rs) = messages r rs
payload_of bs [] = if length bs == 0 then empty_data else too_short

module _ {Q : Type 0} (ops : QueueOps Q) (min_isr : ℕ) where
  -- The guards in front of a message set that cannot be read: it gets as far as the append, or not.
  unreadable : Partition Q → ℕ → ℤ → Bytes → Response Q → Response Q
  unreadable p epoch hw bs end =
      let q : Partition Q = record p { log = set_high_watermark p.log hw } in
      if not p.is_following
      then replicated p 0
      else if not (p.leader_epoch == epoch)
      then replicated p 0
      else if ltb_ℤ (int64 (read_be (take 8 bs))) (newest_offset q.log +ℤ pos 1)
      then replicated q 0
      else end

  handle_data : Disk → Partition Q → ℤ → ℤ → Bool → ℕ → ℤ → Bytes → Parsed → Response Q
  unfolding payload_of unreadable
  handle_data disk p roll now write_ok epoch hw bs (parsed rs) =
      handle_replication_response ops min_isr disk p roll now write_ok epoch hw (payload_of bs rs)
  handle_data disk p roll now write_ok epoch hw bs MessageSet.panicked =
      unreadable p epoch hw bs panicked_on_append
  handle_data disk p roll now write_ok epoch hw bs endless = unreadable p epoch hw bs never_returns

  received : Disk → Partition Q → ℤ → ℤ → Bool → Result (ℕ × ℤ × Bytes) → Received Q
  unfolding handle_data
  received disk p roll now write_ok (ok (epoch, hw, bs)) =
      handled (handle_data disk p roll now write_ok epoch hw bs (parse_message_set 0 bs))
  received disk p roll now write_ok (error e) = handled (replicated p 0)
  received disk p roll now write_ok panicked = crashed

  -- `handleReplicationResponse`.
  unfoldable pub receive : (Bytes → ℕ) → Disk → Partition Q → ℤ → ℤ → Bool → Bytes → Received Q
  unfolding received
  receive crc disk p roll now write_ok bs =
      received disk p roll now write_ok (unmarshal_replication_response crc bs)
