-- ===== src/Reader/Tests.antt =====
-- The theorems at the log of two segments.
use liftbridge.Common.{◌≡◌, refl, pos, ◌+ℤ◌, [], ◌∷◌, inl, some, arith}
use liftbridge.Common.Search.{search}
use liftbridge.Segment.{next_offset, find_entry, read_error}
use liftbridge.Log.{Log, segments, find_segment_index}
use liftbridge.Log.Tests.{two, two-IsValidLog}
use liftbridge.Reader.{Place, Committed, ok, done, new_reader_committed, get_hw_pos, held, read}
use liftbridge.Reader.Within.{Grows}
use liftbridge.Reader.Stops.{StaysCommitted, new_reader_committed-StaysCommitted}
use liftbridge.Reader.Rounds.{ahead, Located, Ends}
use liftbridge.Reader.Ends.{read-Ends}
use liftbridge.Reader.Start.{IsReadable}

two-IsReadable : IsReadable two
two-IsReadable = record {
  chain = two-IsValidLog.chain;
  filled = ((_, _, refl), tt);
  laid = (omega arith, (omega arith, tt));
}

abbrev end : Place
end = record { base = pos 5; at = 30 }

abbrev at_six : Place
at_six = record { base = pos 5; at = 10 }

abbrev from_six : Committed
from_six = record { next = some at_six; limit = some end; hw = pos 8 }

-- All but the message at 10 are committed.
abbrev committed_more : Log
committed_more = record two { hw = pos 9 }

starts_at_six : new_reader_committed two (pos 6) ≡ ok from_six
unfolding new_reader_committed find_segment_index search next_offset ◌+ℤ◌ find_entry
starts_at_six = refl

ends_at_eight : get_hw_pos (segments two) two.hw ≡ ok end
unfolding get_hw_pos find_segment_index search next_offset ◌+ℤ◌ find_entry
ends_at_eight = refl

ends_at_nine :
    get_hw_pos (segments committed_more) committed_more.hw ≡ ok (record { base = pos 9; at = 10 })
unfolding get_hw_pos find_segment_index search next_offset ◌+ℤ◌ find_entry
ends_at_nine = refl

more-Grows : Grows (pos 8) end (committed_more ∷ [])
unfolding get_hw_pos find_segment_index search next_offset ◌+ℤ◌ find_entry held
more-Grows = (inl (omega arith), (two-IsReadable.chain, omega arith), tt)

reads_two :
    read 1 two (committed_more ∷ []) 20 from_six ≡ done (record from_six { next = some end }) 20
unfolding read read_error
reads_two = refl

new_reader_committed-StaysCommitted_example :
    StaysCommitted (two ∷ committed_more ∷ []) (read 3 two (committed_more ∷ []) 20 from_six)
new_reader_committed-StaysCommitted_example =
    new_reader_committed-StaysCommitted 3 20 two (pos 6) from_six at_six end (committed_more ∷ [])
      two-IsReadable (two-IsReadable.chain, tt) (omega arith) starts_at_six refl ends_at_eight
      more-Grows

more-Located : Located two × Located committed_more
more-Located = ((_, ends_at_eight), (_, ends_at_nine))

read-Ends_example : Ends 20 (read 27 two (committed_more ∷ []) 20 from_six)
unfolding ahead
read-Ends_example =
    read-Ends 27 20 two (committed_more ∷ []) from_six (omega arith)
      (more-Located.0, (more-Located.1, tt))
