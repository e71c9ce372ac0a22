-- ===== src/MessageSet/Tests.antt =====
-- A concrete message set.
use liftbridge.Common.{◌≡◌, pos, ◌+ℤ◌, List, [], ◌∷◌, map, arith}
use liftbridge.Segment.{Record}
use liftbridge.Log.{new_records}
use liftbridge.MessageSet.{Encoded, new_entries, new_message_set, logged, parsed, parse_message_set}
use liftbridge.MessageSet.RoundTrip.{FitsFields, entry_of, parse_message_set-new_message_set}

abbrev small : Encoded
small = record { timestamp = pos 40; leader_epoch = 2; content = 1 ∷ 2 ∷ [] }

abbrev smaller_one : Encoded
smaller_one = record { timestamp = pos 41; leader_epoch = 2; content = 3 ∷ [] }

small_fits : FitsFields (pos 11) small
small_fits = record {
  offset_fits = omega arith;
  timestamp_fits = omega arith;
  epoch_fits = omega arith;
  size_fits = omega arith;
  not_empty = omega arith;
}

smaller_fits : FitsFields (pos 11 +ℤ pos 1) smaller_one
unfolding ◌+ℤ◌
smaller_fits = record {
  offset_fits = omega arith;
  timestamp_fits = omega arith;
  epoch_fits = omega arith;
  size_fits = omega arith;
  not_empty = omega arith;
}

abbrev two_messages : List Encoded
two_messages = small ∷ smaller_one ∷ []

parse_message_set-new_message_set_example :
    (rs : List Record) × (parse_message_set 20 (new_message_set (pos 11) two_messages) ≡ parsed rs)
    × (map entry_of rs ≡ new_entries (pos 11) 20 0 two_messages)
    × (rs ≡ new_records (pos 11) 20 (map logged two_messages))
parse_message_set-new_message_set_example =
    parse_message_set-new_message_set 20 (pos 11) two_messages
      (unfold new_message_set in omega arith) (small_fits, (smaller_fits, tt))
