-- ===== src/Publish.antt =====
-- server/partition.go: how the messages that NATS delivers to the leader of a partition get into its
-- log, its commit queue and its acks. What protobuf makes of a payload and the checksum are
-- arguments; a message of NATS comes with the time at which it is taken.
pub mod Fill
pub mod Round
pub mod Message
mod Tests
use liftbridge.Common.{
  eqb_bytes, ℕ, zero, suc, ◌+◌, ◌-◌, ℤ, Bool, true, false, List, [], ◌∷◌, ◌++◌, map, Option, none,
  some, ltb, ◌==◌, if◌then◌else◌, length, take, drop, last_of,
}
use liftbridge.Decimal.{Bytes}
use liftbridge.Epochs.{Disk}
use liftbridge.Log.{Log, append}
use liftbridge.Log
use liftbridge.Envelope.{Result, ok, error, panicked, publish, unmarshal_envelope}
use liftbridge.Codec.{Header, message_length}
use liftbridge.Codec
use liftbridge.Partition.{Partition, process_pending, update_isr_latest_offset}
use liftbridge.Partition.Queue.{Ack, Policy, leader, QueueOps}

-- `nats.Msg`.
pub record NatsMsg : Type 0 where
  pub data_ : Bytes
  pub subject : Bytes
  pub reply : Bytes
  pub taken_at : ℤ

-- `client.Message`: what is read of it. Its acks go nowhere if it has no inbox.
pub record ClientMessage : Type 0 where
  pub key : Option Bytes
  pub value : Option Bytes
  pub headers : List Header
  pub policy : Policy
  pub has_inbox : Bool

-- `commitlog.Message` with its transient fields.
pub record Incoming : Type 0 where
  pub message : Codec.Message
  pub timestamp : ℤ
  pub leader_epoch : ℕ
  pub policy : Policy
  pub has_inbox : Bool

-- `headers[name] = value`.
unfoldable pub set_header : Bytes → Bytes → List Header → List Header
set_header name value [] = (record { name = name; value = some value }) ∷ []
set_header name value (h ∷ hs) =
    let rest = set_header name value hs in
    if eqb_bytes h.name name then (record h { value = some value }) ∷ hs else h ∷ rest

abbrev pub subject_name : Bytes
subject_name = 115 ∷ 117 ∷ 98 ∷ 106 ∷ 101 ∷ 99 ∷ 116 ∷ []

abbrev pub reply_name : Bytes
reply_name = 114 ∷ 101 ∷ 112 ∷ 108 ∷ 121 ∷ []

-- The message that is built when the payload is a client's message, and when it is not.
unfoldable pub build : NatsMsg → ℕ → Option ClientMessage → Incoming
unfolding set_header
build m epoch none = record {
  message = record {
    magic_byte = 1;
    attributes = 0;
    key = none;
    value = some m.data_;
    headers = set_header reply_name m.reply (set_header subject_name m.subject []);
  };
  timestamp = m.taken_at;
  leader_epoch = epoch;
  policy = leader;
  has_inbox = false;
}
build m epoch (some c) = record {
  message = record {
    magic_byte = 1;
    attributes = 0;
    key = c.key;
    value = c.value;
    headers = set_header reply_name m.reply (set_header subject_name m.subject c.headers);
  };
  timestamp = m.taken_at;
  leader_epoch = epoch;
  policy = c.policy;
  has_inbox = c.has_inbox;
}

module _ (crc : Bytes → ℕ) (decode : Bytes → Option ClientMessage) where
  got : Result ClientMessage → Option (Option ClientMessage)
  got (ok c) = some (some c)
  got (error e) = some none
  got panicked = none

  -- `getMessage`: none is a panic.
  unfoldable pub get_message : Bytes → Option (Option ClientMessage)
  unfolding got
  get_message bs = got (unmarshal_envelope crc decode bs publish)

  unfoldable pub built : NatsMsg → ℕ → Option (Option ClientMessage) → Option Incoming
  unfolding build
  built m epoch none = none
  built m epoch (some c) = some (build m epoch c)

  unfoldable pub nats_to_proto_message : NatsMsg → ℕ → Option Incoming
  unfolding get_message built
  nats_to_proto_message m epoch = built m epoch (get_message m.data_)

-- `msgSetHeaderLen`.
abbrev pub set_header_len : ℕ
set_header_len = 28

unfoldable pub sized : Incoming → Option ℕ → Option Log.Message
sized i none = none
sized i (some n) = some (record {
  key = i.message.key;
  timestamp = i.timestamp;
  leader_epoch = i.leader_epoch;
  size = set_header_len + n;
})

-- What the log takes of a message; none if it cannot be encoded, which panics.
unfoldable pub to_log : Incoming → Option Log.Message
unfolding sized
to_log i = sized i (message_length i.message)

-- The channel of messages: `slept k` is what comes while the loop sleeps, `came k` while it takes
-- messages, where `k` counts the rounds that are left.
pub record Arrivals : Type 0 where
  pub slept : ℕ → List NatsMsg
  pub came : ℕ → List NatsMsg

smaller : ℕ → ℕ → ℕ
smaller a b = if ltb b a then b else a

is_none_left : List NatsMsg → Bool
is_none_left [] = true
is_none_left (m ∷ ms) = false

module _ (waits : Bool) (arrivals : Arrivals) where
  -- What the loop finds in the channel.
  unfoldable pub look : ℕ → List NatsMsg → List NatsMsg
  look k [] = if waits then arrivals.slept k else []
  look k (m ∷ ms) = m ∷ ms

  -- The loop that fills up a batch: what it takes, and what is left in the channel.
  unfoldable pub fill : ℕ → ℕ → List NatsMsg → List NatsMsg × List NatsMsg
  unfolding look smaller is_none_left
  fill zero remaining chan = ([], chan)
  fill (suc k) remaining chan =
      let seen = look k chan in
      let n = smaller (length seen) remaining in
      let rest = fill k (remaining - n) (drop n seen ++ arrivals.came k) in
      if remaining == 0
      then ([], chan)
      else if is_none_left seen
      then ([], seen)
      else (take n seen ++ rest.0, rest.1)

  -- A batch that starts with a message: the rounds are at most as many as messages are wanted.
  unfoldable pub collect : ℕ → NatsMsg → List NatsMsg → List NatsMsg × List NatsMsg
  unfolding fill
  collect batch_size m chan =
      let rest = fill (batch_size - 1) (batch_size - 1) chan in (m ∷ rest.0, rest.1)

-- All results, or a panic.
unfoldable pub cons_both : {A : Type 0} → Option A → Option (List A) → Option (List A)
cons_both none o = none
cons_both (some x) none = none
cons_both (some x) (some xs) = some (x ∷ xs)

module _ (crc : Bytes → ℕ) (decode : Bytes → Option ClientMessage) where
  -- All messages of a batch.
  unfoldable pub convert : ℕ → List NatsMsg → Option (List Incoming)
  unfolding cons_both nats_to_proto_message
  convert epoch [] = some []
  convert epoch (m ∷ ms) = cons_both (nats_to_proto_message crc decode m epoch) (convert epoch ms)

unfoldable pub to_log_all : List Incoming → Option (List Log.Message)
unfolding cons_both to_log
to_log_all [] = some []
to_log_all (i ∷ is) = cons_both (to_log i) (to_log_all is)

-- The ack of a message at an offset.
abbrev pub ack_of : ℤ → Incoming → Ack
ack_of offset i = record { offset = offset; policy = i.policy; has_inbox = i.has_inbox }

-- What a round of the loop ends in: the next one, the end of the loop, a panic, or never.
pub data Processed (Q : Type 0) : Type 0 where
  processed : Partition Q → List Ack → Processed Q
  loop_ends : Partition Q → Processed Q
  crashed never_returns : Processed Q

module _ {Q : Type 0} (ops : QueueOps Q) (min_isr : ℕ) where
  unfoldable pub more : List Ack → Option (Partition Q × List Ack) → Option (Partition Q × List Ack)
  more sent none = none
  more sent (some (p, later)) = some (p, sent ++ later)

  unfoldable pub and_pend :
      Option (Partition Q × List Ack)
      → (Partition Q → Option (Partition Q × List Ack))
      → Option (Partition Q × List Ack)
  unfolding more
  and_pend none f = none
  and_pend (some (p, sent)) f = more sent (f p)

  -- `processPendingMessage` for each message of a batch; none is a panic.
  unfoldable pub pend_all : Partition Q → List ℤ → List Incoming → Option (Partition Q × List Ack)
  unfolding and_pend
  pend_all p offsets [] = some (p, [])
  pend_all p [] (i ∷ is) = none
  pend_all p (o ∷ os) (i ∷ is) =
      and_pend (process_pending ops min_isr p (ack_of o i)) (λ p1. pend_all p1 os is)

  unfoldable pub reported : List ℤ → Option (Partition Q × List Ack) → Processed Q
  reported offsets none = crashed
  reported [] (some (p, sent)) = crashed
  reported (o ∷ os) (some (p, sent)) =
      processed (update_isr_latest_offset ops min_isr p p.self (last_of o os)) sent

  unfoldable pub logged : Partition Q → List Incoming → Log.Outcome → Processed Q
  unfolding pend_all reported
  logged p is (Log.appended l offsets) =
      reported offsets (pend_all (record p { log = l }) offsets is)
  logged p is (Log.failed l e) = loop_ends (record p { log = l })
  logged p is Log.panicked = crashed
  logged p is Log.stuck = never_returns

  unfoldable pub append_batch :
      Disk → ℤ → ℤ → Bool → Partition Q → List Incoming → Option (List Log.Message) → Processed Q
  unfolding logged
  append_batch disk roll now write_ok p is none = crashed
  append_batch disk roll now write_ok p is (some ms) =
      logged p is (append disk p.log roll now ms write_ok)

  unfoldable pub log_all : Disk → ℤ → ℤ → Bool → Partition Q → Option (List Incoming) → Processed Q
  unfolding append_batch to_log_all
  log_all disk roll now write_ok p none = crashed
  log_all disk roll now write_ok p (some is) =
      append_batch disk roll now write_ok p is (to_log_all is)

  module _ (crc : Bytes → ℕ) (decode : Bytes → Option ClientMessage) where
    -- A round of `messageProcessingLoop` on the batch that it has collected.
    unfoldable pub process_batch :
        Disk → ℤ → ℤ → Bool → Partition Q → ℕ → List NatsMsg → Processed Q
    unfolding log_all convert
    process_batch disk roll now write_ok p epoch batch =
        log_all disk roll now write_ok p (convert crc decode epoch batch)
