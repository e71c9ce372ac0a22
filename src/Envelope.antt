-- ===== src/Envelope.antt =====
-- server/protocol/envelope.go: the envelope around the messages between servers and clients, and
-- the replication responses of server/replicator.go that are written into one. What protobuf makes
-- of a message and the CRC-32C are parameters. Bytes are numbers below 256.
pub mod BigEndian
pub mod RoundTrip
pub mod Guard
mod Tests
use liftbridge.Common.{
  eqb_bytes, ℕ, zero, suc, ◌+◌, ◌-◌, ◌*◌, ◌/◌, ◌%◌, ◌^◌, ℤ, pos, negsuc, Bool, true, false, ◌&&◌,
  not, List, [], ◌∷◌, ◌++◌, Option, none, some, ltb, ◌==◌, if◌then◌else◌, length, take, drop,
  get_elem?,
}
use liftbridge.Decimal.{Bytes}
use liftbridge.Envelope.BigEndian.{put_be, read_be}

pub data MsgType : Type 0 where
  publish ack replication_request replication_response raft_join_request : MsgType
  raft_join_response leader_epoch_offset_request leader_epoch_offset_response : MsgType
  propagated_request propagated_response server_info_request server_info_response : MsgType
  partition_status_request partition_status_response partition_notification : MsgType

unfoldable pub code : MsgType → ℕ
code publish = 0
code ack = 1
code replication_request = 2
code replication_response = 3
code raft_join_request = 4
code raft_join_response = 5
code leader_epoch_offset_request = 6
code leader_epoch_offset_response = 7
code propagated_request = 8
code propagated_response = 9
code server_info_request = 10
code server_info_response = 11
code partition_status_request = 12
code partition_status_response = 13
code partition_notification = 14

abbrev pub magic_number : Bytes
magic_number = 0xB9 ∷ 0x0E ∷ 0x43 ∷ 0xB4 ∷ []

abbrev pub min_header_len : ℕ
min_header_len = 8

abbrev pub header : MsgType → Bytes
header t = magic_number ++ 0 ∷ min_header_len ∷ 0 ∷ code t ∷ []

-- `marshalEnvelope`, given what protobuf makes of the message.
unfoldable pub marshal_envelope : Option Bytes → MsgType → Option Bytes
marshal_envelope none t = none
marshal_envelope (some payload) t = some (header t ++ payload)

pub data Error : Type 0 where
  missing_header wrong_magic_number unknown_protocol type_mismatch : Error
  incorrect_header_size crc_mismatch not_enough_data invalid_message : Error

pub data Result (A : Type 0) : Type 0 where
  ok : A → Result A
  error : Error → Result A
  panicked : Result A

-- A byte of a slice that is long enough.
abbrev pub byte_at : Bytes → ℕ → ℕ
byte_at bs i = elim (get_elem? bs i) [ none ↦ 0 | some b ↦ b ]

unfoldable pub has_bit : ℕ → ℕ → Bool
has_bit n bit = (n / 2 ^ bit) % 2 == 1

-- A 64-bit number as signed.
abbrev pub int64 : ℕ → ℤ
int64 n = if ltb n (2 ^ 63) then pos n else negsuc (2 ^ 64 - 1 - n)

module _ (crc : Bytes → ℕ) where
  check_crc : Bytes → ℕ → Bytes → Result Bytes
  check_crc bs header_len payload =
      if not (header_len == min_header_len + 4)
      then error incorrect_header_size
      else if not (crc payload == read_be (take 4 (drop min_header_len bs)))
      then error crc_mismatch
      else ok payload

  -- What follows the checks of the first bytes.
  unfoldable pub check_payload : Bytes → MsgType → Result Bytes
  unfolding has_bit check_crc
  check_payload bs expected =
      let header_len = byte_at bs 5 in
      let payload = drop header_len bs in
      if ltb (length bs) header_len
      then panicked
      else if not (byte_at bs 7 == code expected)
      then error type_mismatch
      else if has_bit (byte_at bs 6) 0
      then check_crc bs header_len payload
      else ok payload

  unfoldable pub check_envelope : Bytes → MsgType → Result Bytes
  check_envelope bs expected =
      if ltb (length bs) min_header_len
      then error missing_header
      else if not (eqb_bytes (take 4 bs) magic_number)
      then error wrong_magic_number
      else if not (byte_at bs 4 == 0)
      then error unknown_protocol
      else check_payload bs expected

  unmarshal_payload : {A : Type 0} → (Bytes → Option A) → Result Bytes → Result A
  unmarshal_payload decode (ok payload) = elim (decode payload) [
    | none ↦ error invalid_message
    | some m ↦ ok m
  ]
  unmarshal_payload decode (error e) = error e
  unmarshal_payload decode panicked = panicked

  -- `unmarshalEnvelope`, with what protobuf reads.
  unfoldable pub unmarshal_envelope : {A : Type 0} → (Bytes → Option A) → Bytes → MsgType → Result A
  unfolding unmarshal_payload
  unmarshal_envelope decode bs t = unmarshal_payload decode (check_envelope bs t)

  response_of : Result Bytes → Result (ℕ × ℤ × Bytes)
  response_of (ok payload) =
      if ltb (length payload) 16
      then error not_enough_data
      else ok (read_be (take 8 payload), int64 (read_be (take 8 (drop 8 payload))), drop 16 payload)
  response_of (error e) = error e
  response_of panicked = panicked

  unfoldable pub unmarshal_replication_response : Bytes → Result (ℕ × ℤ × Bytes)
  unfolding response_of
  unmarshal_replication_response bs = response_of (check_envelope bs replication_response)

abbrev pub uint64 : ℤ → ℕ
uint64 (pos n) = n
uint64 (negsuc n) = 2 ^ 64 - 1 - n

-- `protocolWriter.Reset`: the buffer with its header, the leader epoch and room for the watermark.
unfoldable pub reset : ℕ → Bytes
reset epoch = header replication_response ++ put_be 8 epoch ++ put_be 8 0

-- `Write` of a message with its headers.
unfoldable pub write : Bytes → Bytes → Bytes → Bytes
write buffer headers message = buffer ++ headers ++ message

-- `Flush`: what is sent at this high watermark.
unfoldable pub flush : Bytes → ℤ → Bytes
flush buffer hw = take 16 buffer ++ put_be 8 (uint64 hw) ++ drop 24 buffer
