-- ===== src/Publish/Message.antt =====
-- From a client's message to the bytes in the log and back.
use liftbridge.Common.{
  ℕ, suc, ◌+◌, ◌^◌, ◌≤◌, ◌<◌, ◌≡◌, refl, sym, ap, subst, ◌∙◌, inl, inr, false, List, [], ◌∷◌,
  Option, none, some, arith, if◌then◌else◌, length, Bool-cases, All, eqb_bytes, eqb_bytes-eq,
  eqb_bytes_refl,
}
use liftbridge.Decimal.{Bytes}
use liftbridge.Envelope.{ok, publish, code, marshal_envelope, unmarshal_envelope}
use liftbridge.Envelope.RoundTrip.{unmarshal-marshal}
use liftbridge.Codec.{Header, encode, read_key, read_value, read_headers}
use liftbridge.Codec.RoundTrip.{HasValue, encode-Reads}
use liftbridge.Publish.{
  NatsMsg, ClientMessage, Incoming, set_header, subject_name, reply_name, build, got, get_message,
  built, nats_to_proto_message,
}

-- What a map of headers has under a name.
pub get_header : Bytes → List Header → Option (Option Bytes)
get_header name [] = none
get_header name (h ∷ hs) =
    let rest = get_header name hs in if eqb_bytes h.name name then some h.value else rest

set_header-get :
    (name value : Bytes) (hs : List Header)
    → get_header name (set_header name value hs) ≡ some (some value)
unfolding set_header get_header
set_header-get name value [] = rw (eqb_bytes_refl name) refl
set_header-get name value (h ∷ hs) = elim (Bool-cases (eqb_bytes h.name name)) [
  | inl here ↦ rw (here, here) refl
  | inr later ↦ rw (later, later) (set_header-get name value hs)
]

set_header-get_other :
    (name other value : Bytes) (hs : List Header)
    → eqb_bytes name other ≡ false
    → get_header other (set_header name value hs) ≡ get_header other hs
unfolding set_header get_header
set_header-get_other name other value [] ne = rw ne refl
set_header-get_other name other value (h ∷ hs) ne = elim (Bool-cases (eqb_bytes h.name name)) [
  | inl here ↦
      let same : h.name ≡ name = eqb_bytes-eq h.name name here in
      let miss : eqb_bytes h.name other ≡ false = rw same ne in rw (here, miss) refl
  | inr later ↦ rw later (
      ap (λ rest. if eqb_bytes h.name other then some h.value else rest)
        (set_header-get_other name other value hs ne))
]

set_header-HasValue :
    (name value : Bytes) (hs : List Header)
    → All HasValue hs
    → All HasValue (set_header name value hs)
unfolding set_header
set_header-HasValue name value [] k = ((value, refl), tt)
set_header-HasValue name value (h ∷ hs) k = elim (Bool-cases (eqb_bytes h.name name)) [
  | inl here ↦ rw here ((value, refl), k.1)
  | inr later ↦ rw later (k.0, set_header-HasValue name value hs k.1)
]

length-set_header :
    (name value : Bytes) (hs : List Header) → length (set_header name value hs) ≤ suc (length hs)
unfolding set_header
length-set_header name value [] = omega arith
length-set_header name value (h ∷ hs) = elim (Bool-cases (eqb_bytes h.name name)) [
  | inl here ↦ rw here (omega arith)
  | inr later ↦ rw later (omega (arith, length-set_header name value hs))
]

-- What a reader of the log gets for a message that a client published.
pub record IsPublished (c : ClientMessage) (m : NatsMsg) (i : Incoming) (bs : Bytes) : Type 0 where
  pub key_end : ℕ
  pub key : read_key bs ≡ some (record { content = c.key; end = key_end })
  pub value_end : ℕ
  pub value : read_value bs ≡ some (record { content = c.value; end = value_end })
  pub headers : List Header
  pub read : read_headers bs ≡ some headers
  pub subject : get_header subject_name headers ≡ some (some m.subject)
  pub reply : get_header reply_name headers ≡ some (some m.reply)
  pub others :
      (name : Bytes)
      → eqb_bytes subject_name name ≡ false
      → eqb_bytes reply_name name ≡ false
      → get_header name headers ≡ get_header name c.headers
  pub policy : i.policy ≡ c.policy

module _ (crc : Bytes → ℕ) (decode : Bytes → Option ClientMessage) where
  enveloped :
      (c : ClientMessage) (payload data_ : Bytes)
      → decode payload ≡ some c
      → marshal_envelope (some payload) publish ≡ some data_
      → get_message crc decode data_ ≡ some (some c)
  unfolding get_message got code
  enveloped c payload data_ d h =
      let (bs, made, read) = unmarshal-marshal crc decode c payload publish publish d in
      let same : some bs ≡ some data_ = sym made ∙ h in
      let e : bs ≡ data_ = cc in
      ap (got crc decode) (subst (λ b. unmarshal_envelope crc decode b publish ≡ ok c) e read)

  -- A client's message in its envelope, as NATS delivers it, with headers that are not nil and at most
  -- 65,533 of them: the leader builds a message of it; and if that can be encoded, a reader of the
  -- log gets the client's key, value and headers, with the subject and the reply of the delivery in
  -- place of what the client has under these two names.
  pub nats_to_proto_message-IsPublished :
      (c : ClientMessage) (payload : Bytes) (m : NatsMsg) (epoch : ℕ) (bs : Bytes)
      → decode payload ≡ some c
      → marshal_envelope (some payload) publish ≡ some m.data_
      → All HasValue c.headers
      → length c.headers + 2 < 256 ^ 2
      → encode crc (build m epoch (some c)).message ≡ some bs
      → (i : Incoming) × (nats_to_proto_message crc decode m epoch ≡ some i) × IsPublished c m i bs
  unfolding nats_to_proto_message build
  nats_to_proto_message-IsPublished c payload m epoch bs d h k few enc =
      let inner = set_header subject_name m.subject c.headers in
      let all = set_header reply_name m.reply inner in
      let i = build m epoch (some c) in
      let count : length all < 256 ^ 2 = omega (
        arith,
        few,
        length-set_header reply_name m.reply inner,
        length-set_header subject_name m.subject c.headers,
      ) in
      let reads = encode-Reads crc i.message bs enc count (
        set_header-HasValue reply_name m.reply inner
          (set_header-HasValue subject_name m.subject c.headers k)) in
      (
        i,
        ap (built crc decode m epoch) (enveloped c payload m.data_ d h),
        record {
          key_end = reads.key_end;
          key = reads.key;
          value_end = reads.value_end;
          value = reads.value;
          headers = all;
          read = reads.headers;
          subject =
              set_header-get_other reply_name subject_name m.reply inner refl
              ∙ set_header-get subject_name m.subject c.headers;
          reply = set_header-get reply_name m.reply inner;
          others = λ name s r.
              set_header-get_other reply_name name m.reply inner r
              ∙ set_header-get_other subject_name name m.subject c.headers s;
          policy = refl;
        },
      )
