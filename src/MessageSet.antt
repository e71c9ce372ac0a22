-- ===== src/MessageSet.antt =====
-- server/commitlog/message_set.go: message sets as bytes. In front of each message stand its offset,
-- its timestamp, its leader epoch and its size. The key of an entry is what SerializedMessage.Key reads
-- in the message. A slice is taken to end where its bytes do, with no capacity behind them.
pub mod RoundTrip
mod Tests
use liftbridge.Common.{
  ℕ, zero, suc, ◌+◌, ◌-◌, ◌*◌, ◌%◌, ◌^◌, ℤ, pos, negsuc, ◌+ℤ◌, Bool, true, false, List, [], ◌∷◌,
  ◌++◌, Option, none, some, ltb, leb, if◌then◌else◌, length, take, drop,
}
use liftbridge.Decimal.{Bytes}
use liftbridge.Segment.{Record}
use liftbridge.Log.{Message}
use liftbridge.Codec.{Field, read_key}
use liftbridge.Envelope.{int64, uint64}
use liftbridge.Envelope.BigEndian.{put_be, read_be}

-- `msgSetHeaderLen`.
abbrev pub header_len : ℕ
header_len = 28

-- A message that has been encoded.
pub record Encoded : Type 0 where
  pub timestamp : ℤ
  pub leader_epoch : ℕ
  pub content : Bytes

unfoldable pub put_header : ℤ → Encoded → Bytes
put_header offset m =
    put_be 8 (uint64 offset)
    ++ put_be 8 (uint64 m.timestamp)
    ++ put_be 8 m.leader_epoch
    ++ put_be 4 (length m.content)

-- The bytes that `newMessageSetFromProto` writes.
unfoldable pub new_message_set : ℤ → List Encoded → Bytes
unfolding put_header
new_message_set offset [] = []
new_message_set offset (m ∷ ms) =
    put_header offset m ++ (m.content ++ new_message_set (offset +ℤ pos 1) ms)

content_of : Option Field → Option Bytes
content_of none = none
content_of (some f) = f.content

unfoldable pub key_of : Bytes → Option Bytes
unfolding content_of
key_of bs = content_of (read_key bs)

-- What the log takes of a message.
unfoldable pub logged : Encoded → Message
unfolding key_of
logged m = record {
  key = key_of m.content;
  timestamp = m.timestamp;
  leader_epoch = m.leader_epoch;
  size = header_len + length m.content;
}

-- A number as an int32.
unfoldable pub int32 : ℕ → ℤ
int32 n = if ltb (n % 2 ^ 32) (2 ^ 31) then pos (n % 2 ^ 32) else negsuc (2 ^ 32 - 1 - n % 2 ^ 32)

-- An index entry as it is made.
pub record Entry : Type 0 where
  pub offset : ℤ
  pub timestamp : ℤ
  pub leader_epoch : ℕ
  pub position : ℤ
  pub size : ℤ

-- The entries that `newMessageSetFromProto` makes, behind so many bytes of the set: it counts them in an
-- int32.
unfoldable pub new_entries : ℤ → ℕ → ℕ → List Encoded → List Entry
unfolding int32
new_entries offset base n [] = []
new_entries offset base n (m ∷ ms) =
    (record {
      offset = offset;
      timestamp = m.timestamp;
      leader_epoch = m.leader_epoch;
      position = pos base +ℤ int32 n;
      size = int32 (header_len + length m.content);
    })
    ∷ new_entries (offset +ℤ pos 1) base (n + (header_len + length m.content)) ms

-- What reading a message set ends in.
pub data Parsed : Type 0 where
  parsed : List Record → Parsed
  panicked endless : Parsed

add_entry : Record → Parsed → Parsed
add_entry r (parsed rs) = parsed (r ∷ rs)
add_entry r panicked = panicked
add_entry r endless = endless

-- `size + msgSetHeaderLen` as an int32, if it is not negative.
unfoldable pub entry_size : ℕ → Option ℕ
entry_size size =
    if ltb ((size + header_len) % 2 ^ 32) (2 ^ 31)
    then some ((size + header_len) % 2 ^ 32)
    else none

-- The entry at the front, of so many bytes.
unfoldable pub entry_at : ℕ → Bytes → ℕ → Record
unfolding key_of
entry_at base ms n = record {
  offset = int64 (read_be (take 8 ms));
  timestamp = int64 (read_be (take 8 (drop 8 ms)));
  leader_epoch = read_be (take 8 (drop 16 ms));
  position = base;
  size = n;
  key = key_of (take (n - header_len) (drop header_len ms));
}

next_entry : (ℕ → Bytes → Parsed) → ℕ → Bytes → Option ℕ → Parsed
unfolding add_entry entry_at
next_entry go base ms none = panicked
next_entry go base ms (some n) =
    let rest = go (base + n) (drop n ms) in
    if ltb (length ms) n then panicked else add_entry (entry_at base ms n) rest

-- The loop of `entriesForMessageSet`, on fuel: an entry of no bytes makes it go round for ever.
unfoldable pub parse : ℕ → ℕ → Bytes → Parsed
unfolding next_entry entry_size
parse zero base ms = endless
parse (suc k) base [] = parsed []
parse (suc k) base (b ∷ bs) =
    let rest =
      next_entry (λ base' ms'. parse k base' ms') base (b ∷ bs)
        (entry_size (read_be (take 4 (drop 24 (b ∷ bs))))) in
    if ltb (length (b ∷ bs)) header_len then panicked else rest

-- `entriesForMessageSet`, of bytes.
unfoldable pub parse_message_set : ℕ → Bytes → Parsed
unfolding parse
parse_message_set base ms =
    if leb (length ms) header_len then parsed [] else parse (suc (length ms)) base ms
