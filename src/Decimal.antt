-- ===== src/Decimal.antt =====
-- Decimal text as `fmt.Sprintf("%d")` writes it and `strconv.ParseInt(s, 10, 64)` reads it. The
-- leader epoch checkpoint and the high watermark checkpoint are made of such numbers.
pub mod RoundTrip
mod Tests
use liftbridge.Common.{
  ℕ, zero, suc, ◌+◌, ◌-◌, ◌*◌, ◌/◌, ◌%◌, ◌^◌, ℤ, pos, negsuc, Bool, ◌&&◌, List, [], ◌∷◌, Option,
  none, some, ltb, leb, ◌==◌, if◌then◌else◌,
}

-- The bytes of a text.
abbrev pub Bytes : Type 0
Bytes = List ℕ

-- The digits of a positive number before `out`, on fuel; a number is fuel enough for itself.
pub digits : ℕ → ℕ → Bytes → Bytes
digits zero n out = out
digits (suc k) n out =
    let rest = digits k (n / 10) ((b'0' + n % 10) ∷ out) in if n == 0 then out else rest

unfoldable pub format_uint : ℕ → Bytes
unfolding digits
format_uint n = if n == 0 then b'0' ∷ [] else digits n n []

unfoldable pub format_int : ℤ → Bytes
unfolding format_uint
format_int (pos n) = format_uint n
format_int (negsuc n) = b'-' ∷ format_uint (suc n)

-- The value of a text of digits after the digits read so far.
unfoldable pub scan_digits : Bytes → ℕ → Option ℕ
scan_digits [] n = some n
scan_digits (c ∷ s) n =
    let rest = scan_digits s (n * 10 + (c - b'0')) in
    if leb b'0' c && leb c b'9' then rest else none

unfoldable pub parse_digits : Bytes → Option ℕ
unfolding scan_digits
parse_digits [] = none
parse_digits (c ∷ s) = scan_digits (c ∷ s) 0

-- The range of an int64.
abbrev pub int64_bound : ℕ
int64_bound = 2 ^ 63

positive : Option ℕ → Option ℤ
positive none = none
positive (some n) = if ltb n int64_bound then some (pos n) else none

negative : Option ℕ → Option ℤ
negative none = none
negative (some zero) = some (pos 0)
negative (some (suc n)) = if ltb n int64_bound then some (negsuc n) else none

-- `strconv.ParseInt(s, 10, 64)`; `none` for a syntax error and for a value out of range.
unfoldable pub parse_int : Bytes → Option ℤ
unfolding parse_digits positive negative
parse_int [] = none
parse_int (c ∷ s) =
    if c == b'-'
    then negative (parse_digits s)
    else if c == b'+'
    then positive (parse_digits s)
    else positive (parse_digits (c ∷ s))
