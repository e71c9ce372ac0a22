-- ===== src/Replicator.antt =====
-- server/replicator.go: what the leader does for one of its followers: it answers requests with
-- batches of messages, and looks from time to time whether the follower keeps up. What the log's
-- reader returns, call by call, is an argument, and so is whether a response is sent. Times are
-- natural numbers: a difference below 0 is not more than the lag that is allowed either.
pub mod Fill
pub mod InSync
mod Tests
use liftbridge.Common.{
  ℕ, ◌+◌, ◌-◌, ◌*◌, ℤ, Bool, true, false, ◌&&◌, ◌||◌, not, List, [], ◌∷◌, ◌++◌, Option, none, some,
  ltb, leb, ltb_ℤ, leb_ℤ, if◌then◌else◌, length,
}
use liftbridge.Decimal.{Bytes}
use liftbridge.Segment.{wait_for_leo}
use liftbridge.Log.{newest_offset}
use liftbridge.Envelope.{reset, write, flush}
use liftbridge.Partition.{Replica, Partition, find_replica, update_isr_latest_offset}
use liftbridge.Partition.Queue.{QueueOps}
use liftbridge.Metadata.Leaders.{LeaderRequest}

abbrev pub replication_max_size : ℕ
replication_max_size = 1024 * 1024

-- The length of `headersBuf`.
abbrev pub headers_len : ℕ
headers_len = 28

pub record Replicator : Type 0 where
  pub epoch : ℕ
  pub replica : ℕ
  pub leader : ℕ
  pub max_lag_time : ℕ
  pub last_caught_up : ℕ
  pub last_seen : ℕ
  -- Whether a waiter is registered for it.
  pub waiter : Bool

-- A call of `ReadMessage`: a message with its offset and the bytes in front of it, or an error.
pub record Found : Type 0 where
  pub offset : ℤ
  pub headers : Bytes
  pub message : Bytes

pub data Read : Type 0 where
  found : Found → Read
  read_failed : Read

pub data Batch : Type 0 where
  filled : Bytes → Batch
  failed : Batch

-- The condition of the loop of `replicate`.
abbrev pub goes_on : ℤ → ℤ → Bytes → Bool
goes_on newest offset buffer = ltb_ℤ offset newest && ltb (length buffer) replication_max_size

abbrev pub is_over : Found → Bytes → Bool
is_over f buffer = ltb replication_max_size (length f.message + headers_len + length buffer)

-- The loop of `replicate`. When no further answer of the reader is given, it has failed.
unfoldable pub fill : ℤ → ℤ → Bytes → List Read → Batch
fill newest offset buffer [] = if goes_on newest offset buffer then failed else filled buffer
fill newest offset buffer (read_failed ∷ reads) =
    if goes_on newest offset buffer then failed else filled buffer
fill newest offset buffer (found f ∷ reads) =
    let rest = fill newest f.offset (write buffer f.headers f.message) reads in
    if goes_on newest offset buffer
    then if is_over f buffer then filled buffer else rest
    else filled buffer

-- `sendHW`.
unfoldable pub send_hw : ℕ → ℤ → Bytes
send_hw epoch hw = flush (reset epoch) hw

-- The responses that are sent for a batch: a failure is answered by the watermark alone.
answer : (Bytes → Bool) → ℕ → ℤ → Batch → List Bytes
unfolding send_hw
answer respond epoch hw failed = send_hw epoch hw ∷ []
answer respond epoch hw (filled buffer) =
    if respond (flush buffer hw)
    then flush buffer hw ∷ []
    else flush buffer hw ∷ send_hw epoch hw ∷ []

-- A reader is created at the offset behind the follower's, or not; `replicate` starts with a buffer
-- that was reset, as every end of a response leaves it.
unfoldable pub serve : (Bytes → Bool) → ℕ → ℤ → ℤ → ℤ → Option (List Read) → List Bytes
unfolding fill answer
serve respond epoch hw newest offset none = send_hw epoch hw ∷ []
serve respond epoch hw newest offset (some reads) =
    answer respond epoch hw (fill newest offset (reset epoch) reads)

-- What a request of the follower asks, and when it came.
pub record Asked : Type 0 where
  pub offset : ℤ
  pub received : ℕ

module _ {Q : Type 0} (ops : QueueOps Q) (min_isr : ℕ) where
  -- The partition, the replicator and the responses.
  pub record Served : Type 0 where
    pub partition : Partition Q
    pub replicator : Replicator
    pub sent : List Bytes

  -- `NotifyLEO` of the partition's log.
  unfoldable pub notify_leo : Partition Q → ℕ → ℤ → Partition Q
  notify_leo p waiter leo = record p {
    log = record p.log { active = (wait_for_leo p.log.active waiter leo).0 };
  }

  -- `caughtUp`.
  unfoldable pub caught_up : Partition Q → Replicator → ℤ → ℕ → Served
  unfolding send_hw notify_leo
  caught_up p r leo received = record {
    partition = if r.waiter then p else notify_leo p r.replica leo;
    replicator = record r { last_caught_up = received; waiter = true };
    sent = send_hw r.epoch p.log.hw ∷ [];
  }

  -- The round of the loop of `start` for a request.
  unfoldable pub handle_request :
      (Bytes → Bool) → Option (List Read) → Partition Q → Replicator → Asked → Served
  unfolding caught_up
  handle_request respond reads p r req =
      let seen = record r { last_seen = req.received } in
      let updated = update_isr_latest_offset ops min_isr p r.replica req.offset in
      let newest = newest_offset updated.log in
      if leb_ℤ newest req.offset then caught_up updated seen newest req.received else record {
        partition = updated;
        replicator = seen;
        sent = serve respond r.epoch updated.log.hw newest req.offset reads;
      }

is_some : Option Replica → Bool
is_some none = false
is_some (some r) = true

-- What a tick asks of the metadata leader.
pub data Ask : Type 0 where
  nothing : Ask
  to_shrink to_expand : LeaderRequest → Ask

-- The fields of `ShrinkISROp` and `ExpandISROp`.
unfoldable pub request_of : ℕ → ℕ → Replicator → LeaderRequest
request_of stream id r = record {
  stream = stream;
  id = id;
  replica = r.replica;
  leader = r.leader;
  leader_epoch = r.epoch;
}

unfoldable pub out_of_sync : Replicator → ℕ → Bool
out_of_sync r now =
    ltb r.max_lag_time (now - r.last_seen) || ltb r.max_lag_time (now - r.last_caught_up)

module _ {Q : Type 0} where
  -- `inISR`.
  unfoldable pub in_isr : Partition Q → ℕ → Bool
  unfolding is_some
  in_isr p id = is_some (find_replica id p.isr)

  -- A round of the loop of `tick`.
  unfoldable pub tick : ℕ → ℕ → Partition Q → Replicator → ℕ → Ask
  unfolding request_of out_of_sync in_isr
  tick stream id p r now =
      if out_of_sync r now && in_isr p r.replica
      then to_shrink (request_of stream id r)
      else if not (out_of_sync r now) && not (in_isr p r.replica)
      then to_expand (request_of stream id r)
      else nothing
