-- ===== src/Codec/Tests.antt =====
-- A message with a nil key and one header, and its bytes.
use liftbridge.Common.{◌≡◌, refl, [], ◌∷◌, none, some}
use liftbridge.Decimal.{Bytes}
use liftbridge.Codec.{Message, read_headers}

abbrev with_header : Message
with_header = record {
  magic_byte = 1;
  attributes = 0;
  key = none;
  value = some (7 ∷ []);
  headers = (record { name = 65 ∷ []; value = some (9 ∷ 9 ∷ []) }) ∷ [];
}

-- The checksum of these bytes is taken for 5.
abbrev its_bytes : Bytes
its_bytes =
    0 ∷ 0 ∷ 0 ∷ 5 ∷ 1 ∷ 0 ∷ 255 ∷ 255 ∷ 255 ∷ 255 ∷ 0 ∷ 0 ∷ 0 ∷ 1 ∷ 7 ∷ 0 ∷ 1 ∷ 0 ∷ 1 ∷ 65 ∷ 0 ∷ 0
    ∷ 0 ∷ 2 ∷ 9 ∷ 9 ∷ []

-- A header whose value is nil is written with the size -1, which `Headers` takes for a slice that ends
-- before it starts.
nil_header_panics :
    read_headers (
      0 ∷ 0 ∷ 0 ∷ 5 ∷ 1 ∷ 0 ∷ 255 ∷ 255 ∷ 255 ∷ 255 ∷ 255 ∷ 255 ∷ 255 ∷ 255 ∷ 0 ∷ 1 ∷ 0 ∷ 1 ∷ 65
      ∷ 255 ∷ 255 ∷ 255 ∷ 255 ∷ [])
    ≡ none
unfolding read_headers
nil_header_panics = refl
