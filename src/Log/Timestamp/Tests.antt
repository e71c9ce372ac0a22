-- ===== src/Log/Timestamp/Tests.antt =====
-- The lookup by timestamp in a concrete log, whose timestamps are 6, 7, 9, 10 and 11.
use liftbridge.Common.{◌≡◌, refl, pos, [], ◌∷◌, none, some, arith}
use liftbridge.Segment.{next_offset, new_segment, find_entry_by_timestamp}
use liftbridge.Common.Search.{search}
use liftbridge.Segment.Tests.{at}
use liftbridge.Log.{Log, segments}
use liftbridge.Log.Order.{view}
use liftbridge.Log.Tests.{two, full}
use liftbridge.Log.Timestamp.{offset_for_timestamp, starts_after}
use liftbridge.Log.Timestamp.Earliest.{
  earliest, offset_for_timestamp-earliest, offset_for_timestamp_fails,
}

offset_for_timestamp-earliest_example :
    offset_for_timestamp two (pos 8)
    ≡ some (earliest (next_offset full) (pos 8) (view (segments two)))
offset_for_timestamp-earliest_example =
    offset_for_timestamp-earliest two (pos 8) (pos 0)
      ((at 5 0, at 6 10 ∷ at 8 20 ∷ [], refl), ((at 9 0, at 10 10 ∷ [], refl), tt)) (omega arith)

it_is_8 : offset_for_timestamp two (pos 8) ≡ some (pos 8)
unfolding offset_for_timestamp find_entry_by_timestamp search
it_is_8 = refl

abbrev just_split : Log
just_split = record two { active = new_segment (pos 9) 20 }

offset_for_timestamp_fails_example : offset_for_timestamp just_split (pos 8) ≡ none
unfolding starts_after new_segment
offset_for_timestamp_fails_example = offset_for_timestamp_fails just_split (pos 8) refl (refl, tt)

-- 9 has the timestamp of 8, which is in the segment before: 8 is not found.
abbrev tied : Log
tied = record two {
  active = record full { records = (record (at 9 0) { timestamp = pos 9 }) ∷ at 10 10 ∷ [] };
}

it_is_not_8 : offset_for_timestamp tied (pos 9) ≡ some (pos 9)
unfolding offset_for_timestamp find_entry_by_timestamp search
it_is_not_8 = refl
