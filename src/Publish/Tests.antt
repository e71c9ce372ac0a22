-- ===== src/Publish/Tests.antt =====
-- The theorems at concrete messages.
use liftbridge.Common.{ℕ, ◌≡◌, refl, pos, true, List, [], ◌∷◌, ◌++◌, Option, some, none, arith}
use liftbridge.Envelope.BigEndian.{put_be}
use liftbridge.Decimal.{Bytes}
use liftbridge.Envelope.{marshal_envelope, code}
use liftbridge.Codec.{put_body, encode}
use liftbridge.Log
use liftbridge.Partition.Queue.{all}
use liftbridge.Publish.{
  NatsMsg, ClientMessage, Incoming, Arrivals, build, nats_to_proto_message, collect,
}
use liftbridge.Publish.Fill.{IsFilled, collect-IsFilled}
use liftbridge.Publish.Message.{IsPublished, nats_to_proto_message-IsPublished}

abbrev raw : ℕ → NatsMsg
raw b = record { data_ = b ∷ []; subject = 97 ∷ []; reply = []; taken_at = pos 60 }

-- One more message comes while the loop sleeps.
abbrev late : Arrivals
late = record { slept = λ k. raw 9 ∷ []; came = λ k. [] }

collect-IsFilled_example :
    let r = collect true late 4 (raw 1) (raw 2 ∷ []) in
    (taken : List NatsMsg) × (r.0 ≡ raw 1 ∷ taken) × IsFilled true late 3 (raw 2 ∷ []) taken r.1
collect-IsFilled_example = collect-IsFilled true late 4 (raw 1) (raw 2 ∷ [])

abbrev no_client : Bytes → Option ClientMessage
no_client bs = none

abbrev no_sum : Bytes → ℕ
no_sum bs = 0

abbrev batch : List NatsMsg
batch = raw 1 ∷ raw 2 ∷ []

abbrev built_raw : ℕ → Incoming
built_raw b = build (raw b) 2 none

-- 28 bytes of header; 4 + 1 + 1 bytes; a nil key, a value of one byte; two headers of 7 + 1 and 5 bytes.
abbrev sized_raw : Log.Message
sized_raw = record { key = none; timestamp = pos 60; leader_epoch = 2; size = 70 }

abbrev client : ClientMessage
client = record {
  key = some (5 ∷ []);
  value = some (6 ∷ []);
  headers = (record { name = 97 ∷ []; value = some (8 ∷ []) }) ∷ [];
  policy = all;
  has_inbox = true;
}

-- The payload of this client is one byte.
abbrev one_client : Bytes → Option ClientMessage
one_client [] = none
one_client (b ∷ bs) = some client

abbrev delivered : NatsMsg
delivered = record {
  data_ = 185 ∷ 14 ∷ 67 ∷ 180 ∷ 0 ∷ 8 ∷ 0 ∷ 0 ∷ 1 ∷ [];
  subject = 97 ∷ [];
  reply = [];
  taken_at = pos 60;
}

abbrev client_bytes : Bytes
client_bytes = put_be 4 0 ++ put_body (build delivered 2 (some client)).message

nats_to_proto_message-IsPublished_example :
    (i : Incoming) × (nats_to_proto_message no_sum one_client delivered 2 ≡ some i)
    × IsPublished client delivered i client_bytes
unfolding marshal_envelope encode build code
nats_to_proto_message-IsPublished_example =
    nats_to_proto_message-IsPublished no_sum one_client client (1 ∷ []) delivered 2 client_bytes
      refl refl ((8 ∷ [], refl), tt) (omega arith) refl
