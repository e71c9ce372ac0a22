-- ===== src/Envelope/RoundTrip.antt =====
-- What is put into an envelope comes out of it.
use liftbridge.Common.{
  ℕ, suc, ◌-◌, ◌^◌, ◌<◌, ◌≡◌, refl, sym, ap, ◌∙◌, inl, inr, ℤ, pos, negsuc, true, false, List, [],
  ◌∷◌, ◌++◌, Option, some, arith, ltb, lt→ltb, ◌==◌, if◌then◌else◌, length, get_elem?, Bool-cases,
}
use liftbridge.Decimal.{Bytes}
use liftbridge.Envelope.BigEndian.{put_be, read_be-put_be}
use liftbridge.Envelope.{
  MsgType, replication_response, code, header, marshal_envelope, ok, error, type_mismatch,
  check_payload, check_envelope, has_bit, unmarshal_payload, unmarshal_envelope, response_of, int64,
  uint64, unmarshal_replication_response, reset, write, flush,
}

code_test : (t : MsgType) → (code t == code t) ≡ true
code_test t = ground arith

types : List MsgType
types =
    MsgType.publish ∷ MsgType.ack ∷ MsgType.replication_request ∷ replication_response
    ∷ MsgType.raft_join_request ∷ MsgType.raft_join_response ∷ MsgType.leader_epoch_offset_request
    ∷ MsgType.leader_epoch_offset_response ∷ MsgType.propagated_request
    ∷ MsgType.propagated_response ∷ MsgType.server_info_request ∷ MsgType.server_info_response
    ∷ MsgType.partition_status_request ∷ MsgType.partition_status_response
    ∷ MsgType.partition_notification ∷ []

types-code : (t : MsgType) → get_elem? types (code t) ≡ some t
unfolding types code
types-code MsgType.publish = refl
types-code MsgType.ack = refl
types-code MsgType.replication_request = refl
types-code replication_response = refl
types-code MsgType.raft_join_request = refl
types-code MsgType.raft_join_response = refl
types-code MsgType.leader_epoch_offset_request = refl
types-code MsgType.leader_epoch_offset_response = refl
types-code MsgType.propagated_request = refl
types-code MsgType.propagated_response = refl
types-code MsgType.server_info_request = refl
types-code MsgType.server_info_response = refl
types-code MsgType.partition_status_request = refl
types-code MsgType.partition_status_response = refl
types-code MsgType.partition_notification = refl

-- No two types of message have the same code.
pub code-injective : (t u : MsgType) → code t ≡ code u → t ≡ u
code-injective t u e =
    let at : some t ≡ some u = sym (types-code t) ∙ (ap (get_elem? types) e ∙ types-code u) in cc

-- The numbers of Go's int64.
abbrev pub IsInt64 : ℤ → Type 0
IsInt64 (pos n) = n < 2 ^ 63
IsInt64 (negsuc n) = n < 2 ^ 63

long_enough :
    (payload : Bytes)
    → ltb (suc (suc (suc (suc (suc (suc (suc (suc (length payload))))))))) 8 ≡ false
long_enough payload = ground arith

pub int64-uint64 : (x : ℤ) → IsInt64 x → int64 (uint64 x) ≡ x
int64-uint64 (pos n) h = rw (lt→ltb n (2 ^ 63) h) refl
int64-uint64 (negsuc n) h =
    let high : ltb (2 ^ 64 - 1 - n) (2 ^ 63) ≡ false = ground arith in
    let back : 2 ^ 64 - 1 - (2 ^ 64 - 1 - n) ≡ n = omega arith in rw (high, back) refl

pub uint64-lt : (x : ℤ) → IsInt64 x → uint64 x < 2 ^ 64
uint64-lt (pos n) h = omega arith
uint64-lt (negsuc n) h = omega arith

module _ (crc : Bytes → ℕ) where
  pub check_envelope-header :
      (t : MsgType) (payload : Bytes) → check_envelope crc (header t ++ payload) t ≡ ok payload
  unfolding check_envelope check_payload has_bit
  check_envelope-header t payload = rw (long_enough payload, code_test t) refl

  same_type :
      (t u : MsgType) (payload : Bytes)
      → (code t == code u) ≡ true
      → check_envelope crc (header t ++ payload) u ≡ ok payload
  unfolding check_envelope check_payload has_bit
  same_type t u payload same = rw (long_enough payload, same) refl

  other_type :
      (t u : MsgType) (payload : Bytes)
      → (code t == code u) ≡ false
      → check_envelope crc (header t ++ payload) u ≡ error type_mismatch
  unfolding check_envelope check_payload has_bit
  other_type t u payload ne = rw (long_enough payload, ne) refl

  decoded :
      {A : Type 0} (decode : Bytes → Option A) (payload : Bytes) (m : A)
      → decode payload ≡ some m
      → unmarshal_payload crc decode (ok payload) ≡ ok m
  unfolding unmarshal_payload
  decoded decode payload m h = rw (h, unmarshal_payload) refl

  response_lem :
      (epoch n : ℕ) (body : Bytes)
      → epoch < 2 ^ 64
      → n < 2 ^ 64
      → response_of crc (ok (put_be 8 epoch ++ put_be 8 n ++ body)) ≡ ok (epoch, int64 n, body)
  unfolding response_of
  response_lem epoch n body fits small =
      let long : ltb (length (put_be 8 epoch ++ put_be 8 n ++ body)) 16 ≡ false = ground arith in
      let first = read_be-put_be 8 epoch fits in
      let second = read_be-put_be 8 n small in rw (long, first, second) refl

  flush-reset :
      (epoch : ℕ) (hw : ℤ) (body : Bytes)
      → epoch < 2 ^ 64
      → IsInt64 hw
      → response_of crc (
          check_envelope crc
            (header replication_response ++ put_be 8 epoch ++ put_be 8 (uint64 hw) ++ body)
            replication_response)
        ≡ ok (epoch, hw, body)
  flush-reset epoch hw body fits signed =
      ap (response_of crc) (
        check_envelope-header replication_response (put_be 8 epoch ++ put_be 8 (uint64 hw) ++ body))
      ∙ (response_lem epoch (uint64 hw) body fits (uint64-lt hw signed)
          ∙ ap (λ x. ok (epoch, x, body)) (int64-uint64 hw signed))

  -- A message that protobuf can write and read again comes out of its envelope as it was put in,
  -- whatever the checksum is, if its own type is expected; if another type is, the envelope is refused.
  pub unmarshal-marshal :
      {A : Type 0} (decode : Bytes → Option A) (m : A) (payload : Bytes) (t u : MsgType)
      → decode payload ≡ some m
      → (bs : Bytes) × (marshal_envelope (some payload) t ≡ some bs)
        × (unmarshal_envelope crc decode bs u
            ≡ (if code t == code u then ok m else error type_mismatch))
  unfolding marshal_envelope unmarshal_envelope unmarshal_payload
  unmarshal-marshal decode m payload t u h = (
    header t ++ payload,
    refl,
    elim (Bool-cases (code t == code u)) [
      | inl same ↦ rw (same_type t u payload same, same) (decoded decode payload m h)
      | inr differs ↦ rw (other_type t u payload differs, differs) refl
    ],
  )

  -- A response of the leader is read by the follower as it was written: the epoch, the high watermark
  -- at the time of the flush, and the messages; also if there are none.
  pub unmarshal-flush :
      (epoch : ℕ) (hw : ℤ) (headers message : Bytes)
      → epoch < 2 ^ 64
      → IsInt64 hw
      → (unmarshal_replication_response crc (flush (write (reset epoch) headers message) hw)
          ≡ ok (epoch, hw, headers ++ message))
        × (unmarshal_replication_response crc (flush (reset epoch) hw) ≡ ok (epoch, hw, []))
  unfolding unmarshal_replication_response reset write flush
  unmarshal-flush epoch hw headers message fits signed =
      (flush-reset epoch hw (headers ++ message) fits signed, flush-reset epoch hw [] fits signed)
