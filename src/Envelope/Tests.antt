-- ===== src/Envelope/Tests.antt =====
-- The theorems at concrete messages.
use liftbridge.Common.{
  eqb_bytes, ℕ, ◌+◌, ◌≤◌, ◌<◌, ◌≡◌, ◌↔◌, true, [], ◌∷◌, ◌++◌, Option, some, length, take,
}
use liftbridge.Decimal.{Bytes}
use liftbridge.Envelope.{publish, panicked, check_envelope, byte_at, magic_number, min_header_len}
use liftbridge.Envelope.Guard.{check_envelope-panics}

abbrev sum : Bytes → ℕ
sum [] = 0
sum (b ∷ bs) = b + sum bs

abbrev identity : Bytes → Option Bytes
identity bs = some bs

-- Eight bytes that name a header of 255.
abbrev long_header : Bytes
long_header = magic_number ++ 0 ∷ 255 ∷ 0 ∷ 0 ∷ []

check_envelope-panics_example : (check_envelope sum long_header publish ≡ panicked) ↔ (
    (min_header_len ≤ length long_header)
    × (eqb_bytes (take 4 long_header) magic_number ≡ true)
    × (byte_at long_header 4 ≡ 0)
    × (length long_header < byte_at long_header 5))
check_envelope-panics_example = check_envelope-panics sum long_header publish
