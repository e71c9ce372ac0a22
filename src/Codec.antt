-- ===== src/Codec.antt =====
-- server/commitlog/encoder.go and message.go: how a message is laid out in bytes, and how its parts
-- are read from them. Encoding takes two passes: the first checks the lengths and adds them up, the
-- second writes into a buffer of that length. A map of headers is a list with distinct names. The
-- checksum is an argument.
pub mod Fields
pub mod RoundTrip
mod Tests
use liftbridge.Common.{
  ℕ, zero, suc, ◌+◌, ◌-◌, ◌%◌, ◌^◌, Bool, true, false, List, [], ◌∷◌, ◌++◌, Option, none, some, ltb,
  leb, ◌==◌, if◌then◌else◌, length, take, drop,
}
use liftbridge.Decimal.{Bytes}
use liftbridge.Envelope.BigEndian.{put_be, read_be}

pub record Header : Type 0 where
  pub name : Bytes
  pub value : Option Bytes

-- `Message`: what is written of it. A nil slice is none.
pub record Message : Type 0 where
  pub magic_byte : ℕ
  pub attributes : ℕ
  pub key : Option Bytes
  pub value : Option Bytes
  pub headers : List Header

abbrev pub max_int32 : ℕ
max_int32 = 2 ^ 31 - 1

abbrev pub max_int16 : ℕ
max_int16 = 2 ^ 15 - 1

-- -1 as a uint32.
abbrev pub minus_one_32 : ℕ
minus_one_32 = 2 ^ 32 - 1

-- The first pass: lengths, or an error.
abbrev pub add_length : ℕ → Option ℕ → Option ℕ
add_length n none = none
add_length n (some m) = some (n + m)

abbrev pub and_length : Option ℕ → Option ℕ → Option ℕ
and_length none o = none
and_length (some n) o = add_length n o

unfoldable pub bytes_length : Option Bytes → Option ℕ
bytes_length none = some 4
bytes_length (some bs) = if ltb max_int32 (length bs) then none else some (4 + length bs)

unfoldable pub string_length : Bytes → Option ℕ
string_length bs = if ltb max_int16 (length bs) then none else some (2 + length bs)

unfoldable pub headers_length : List Header → Option ℕ
unfolding bytes_length string_length
headers_length [] = some 0
headers_length (h ∷ hs) =
    and_length (string_length h.name) (and_length (bytes_length h.value) (headers_length hs))

-- The checksum, the two bytes, the key, the value, the number of headers and the headers.
unfoldable pub message_length : Message → Option ℕ
unfolding headers_length
message_length m = add_length 6 (
    and_length (bytes_length m.key)
      (and_length (bytes_length m.value) (add_length 2 (headers_length m.headers))))

-- The second pass: `PutBytes`, `PutString`, and the headers.
unfoldable pub put_bytes : Option Bytes → Bytes
put_bytes none = put_be 4 minus_one_32
put_bytes (some bs) = put_be 4 (length bs) ++ bs

unfoldable pub put_string : Bytes → Bytes
put_string bs = put_be 2 (length bs) ++ bs

unfoldable pub put_headers : List Header → Bytes
unfolding put_bytes put_string
put_headers [] = []
put_headers (h ∷ hs) = put_string h.name ++ (put_bytes h.value ++ put_headers hs)

-- All but the checksum.
unfoldable pub put_body : Message → Bytes
unfolding put_headers
put_body m =
    m.magic_byte
    ∷ (m.attributes
        ∷ (put_bytes m.key
            ++ (put_bytes m.value ++ (put_be 2 (length m.headers) ++ put_headers m.headers))))

unfoldable pub written : Option ℕ → Bytes → Option Bytes
written none bs = none
written (some n) bs = some bs

module _ (crc : Bytes → ℕ) where
  -- `encode` of a message.
  unfoldable pub encode : Message → Option Bytes
  unfolding message_length put_body written
  encode m = written (message_length m) (put_be 4 (crc (put_body m)) ++ put_body m)

-- So many bytes at a position; none if a slice is out of range, which panics.
unfoldable pub at : ℕ → ℕ → Bytes → Option Bytes
at n k m = if ltb (length m) (n + k) then none else some (take k (drop n m))

-- A slice of bytes with its size, and where it ends.
pub record Field : Type 0 where
  pub content : Option Bytes
  pub end : ℕ

filled : ℕ → ℕ → Option Bytes → Option Field
filled n size none = none
filled n size (some bs) = some (record { content = some bs; end = n + 4 + size })

-- A negative size other than -1, which no encoder writes, is taken for a panic.
field_of : ℕ → Bytes → Option Bytes → Option Field
unfolding filled at
field_of n m none = none
field_of n m (some bs) =
    let size = read_be bs in
    if size == minus_one_32
    then some (record { content = none; end = n + 4 })
    else if ltb max_int32 size
    then none
    else filled n size (at (n + 4) size m)

unfoldable pub read_field : ℕ → Bytes → Option Field
unfolding field_of at
read_field n m = field_of n m (at n 4 m)

-- `SerializedMessage.Key`, with where it ends.
unfoldable pub read_key : Bytes → Option Field
unfolding read_field
read_key m = read_field 6 m

after_key : Bytes → Option Field → Option Field
unfolding read_field
after_key m none = none
after_key m (some f) = read_field f.end m

-- `SerializedMessage.Value`.
unfoldable pub read_value : Bytes → Option Field
unfolding after_key read_key
read_value m = after_key m (read_key m)

-- A size as an unsigned number, and so many bytes.
pub record Sized : Type 0 where
  pub content : Bytes
  pub end : ℕ

sized_from : ℕ → Option Bytes → Option Sized
sized_from n none = none
sized_from n (some bs) = some (record { content = bs; end = n + length bs })

sized_of : ℕ → ℕ → Bytes → Option Bytes → Option Sized
unfolding sized_from at
sized_of n k m none = none
sized_of n k m (some bs) =
    if ltb max_int32 (read_be bs) then none else sized_from (n + k) (at (n + k) (read_be bs) m)

unfoldable pub read_sized : ℕ → ℕ → Bytes → Option Sized
unfolding sized_of at
read_sized k n m = sized_of n k m (at n k m)

cons_header : Bytes → Bytes → Option (List Header) → Option (List Header)
cons_header name value none = none
cons_header name value (some hs) = some ((record { name = name; value = some value }) ∷ hs)

-- The loop of `Headers` over the number of headers.
unfoldable pub read_headers_from : ℕ → ℕ → Bytes → Option (List Header)
unfolding read_sized cons_header
read_headers_from zero n m = some []
read_headers_from (suc k) n m = elim (read_sized 2 n m) [
  | none ↦ none
  | some name ↦ elim (read_sized 4 name.end m) [
    | none ↦ none
    | some value ↦ cons_header name.content value.content (read_headers_from k value.end m)
  ]
]

count_of : ℕ → Bytes → Option Bytes → Option (List Header)
unfolding read_headers_from
count_of n m none = none
count_of n m (some bs) = read_headers_from (read_be bs) (n + 2) m

headers_after : Bytes → Option Field → Option (List Header)
unfolding count_of at
headers_after m none = none
headers_after m (some f) = count_of f.end m (at f.end 2 m)

-- `SerializedMessage.Headers`.
unfoldable pub read_headers : Bytes → Option (List Header)
unfolding headers_after read_value
read_headers m = headers_after m (read_value m)
