-- ===== src/Decimal/Tests.antt =====
-- The round trip at concrete numbers.
use liftbridge.Common.{◌≡◌, negsuc, some, arith}
use liftbridge.Decimal.{format_int, parse_int}
use liftbridge.Decimal.RoundTrip.{parse_int-format_int}

parse_int-format_int_example : parse_int (format_int (negsuc 41)) ≡ some (negsuc 41)
parse_int-format_int_example = parse_int-format_int (negsuc 41) (omega arith) (omega arith)
