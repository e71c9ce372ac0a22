-- ===== src/Segment.antt =====
-- server/commitlog/segment.go: one segment of the log, with its index (index.go). A record stands
-- for an index entry together with the message set that lies in the log file at the entry's
-- position. Files are left out: whether a call of the file system succeeds is an argument.
pub mod Write
pub mod Find
pub mod Tests
use liftbridge.Common.{
  ℕ, zero, suc, ◌+◌, ◌≤◌, ℤ, pos, minus_one, ◌+ℤ◌, ◌-ℤ◌, leb_ℤ, ltb_ℤ, eqb_ℤ, Bool, true, false,
  ◌&&◌, ◌||◌, not, List, [], ◌∷◌, ◌++◌, map, Option, none, some, leb, ltb, ◌==◌, if◌then◌else◌,
  length, last_of, get_elem?,
}
use liftbridge.Common.Search.{search, holds_at}
use liftbridge.Decimal.{Bytes}

-- `entry`, and the key of the message (none for a nil slice). An index file keeps the offset, less the
-- base offset of the segment, and the position as int32; neither is cut here.
pub record Record : Type 0 where
  pub offset : ℤ
  pub timestamp : ℤ
  pub leader_epoch : ℕ
  pub position : ℕ
  pub size : ℕ
  pub key : Option Bytes

-- The waiters are those whose channel is registered and open.
pub record Segment : Type 0 where
  pub base_offset : ℤ
  pub first_offset : ℤ
  pub last_offset : ℤ
  pub first_write_time : ℤ
  pub last_write_time : ℤ
  pub position : ℕ
  pub max_bytes : ℕ
  pub records : List Record
  pub waiters : List ℕ
  pub sealed : Bool
  pub closed : Bool
  pub replaced : Bool

pub data Error : Type 0 where
  entry_not_found segment_closed segment_exists segment_replaced : Error
  io_failed : Error

-- `newSegment` of a file that is not there yet.
unfoldable pub new_segment : ℤ → ℕ → Segment
new_segment base_offset max_bytes = record {
  base_offset = base_offset;
  first_offset = minus_one;
  last_offset = minus_one;
  first_write_time = pos 0;
  last_write_time = pos 0;
  position = 0;
  max_bytes = max_bytes;
  records = [];
  waiters = [];
  sealed = false;
  closed = false;
  replaced = false;
}

-- `setupIndex`: the bounds of a segment that is opened on an index with these entries.
abbrev pub setup_bounds : Segment → List Record → Segment
setup_bounds s [] = s
setup_bounds s (r ∷ rs) =
    let e = last_of r rs in
    record s {
      last_offset = e.offset;
      last_write_time = e.timestamp;
      first_offset = r.offset;
      first_write_time = r.timestamp;
    }

unfoldable pub setup_index : Segment → Segment
setup_index s = setup_bounds s s.records

-- `CheckSplit`, at the time `now`.
unfoldable pub check_split : Segment → ℤ → ℤ → Bool
check_split s log_roll_time now =
    if leb s.max_bytes s.position
    then true
    else if eqb_ℤ log_roll_time (pos 0) || eqb_ℤ s.first_write_time (pos 0)
    then false
    else leb_ℤ log_roll_time (now -ℤ s.first_write_time)

unfoldable pub notify_waiters : Segment → Segment
notify_waiters s = record s { waiters = [] }

unfoldable pub seal : Segment → Segment
unfolding notify_waiters
seal s = if s.sealed then s else notify_waiters (record s { sealed = true })

unfoldable pub next_offset : Segment → ℤ
next_offset s = if eqb_ℤ s.last_offset minus_one then s.base_offset else s.last_offset +ℤ pos 1

unfoldable pub is_empty : Segment → Bool
is_empty s = eqb_ℤ s.first_offset minus_one

unfoldable pub message_count : Segment → ℕ
message_count s = length s.records

-- What a write does: it succeeds, fails, or panics on an empty batch of entries.
pub data Outcome : Type 0 where
  done : Segment → Outcome
  failed : Segment → Error → Outcome
  panicked : Outcome

-- The segment after the file took `n` bytes that hold these records.
unfoldable pub written : Segment → ℕ → Record → List Record → Segment
unfolding notify_waiters
written s n r rs =
    let last = last_of r rs in
    let fresh = eqb_ℤ s.first_write_time (pos 0) in
    notify_waiters (record s {
      position = s.position + n;
      first_offset = if fresh then r.offset else s.first_offset;
      first_write_time = if fresh then r.timestamp else s.first_write_time;
      last_offset = last.offset;
      last_write_time = last.timestamp;
      records = s.records ++ r ∷ rs;
    })

-- `WriteMessageSet` of `n` bytes that hold these records; `write_ok` says whether the file takes
-- them.
unfoldable pub write_message_set : Segment → ℕ → List Record → Bool → Outcome
write_message_set s n [] write_ok =
    if s.closed then failed s segment_closed else if write_ok then panicked else failed s io_failed
write_message_set s n (r ∷ rs) write_ok =
    if s.closed
    then failed s segment_closed
    else if write_ok
    then done (written s n r rs)
    else failed s io_failed

-- `ReadAt` on a segment: the error, if there is one.
unfoldable pub read_error : Segment → Option Error
read_error s =
    if s.closed then (if s.replaced then some segment_replaced else some segment_closed) else none

unfoldable pub contains : ℕ → List ℕ → Bool
contains w [] = false
contains w (v ∷ vs) = v == w || contains w vs

-- `waitForData`: the segment and whether the returned channel is closed already.
unfoldable pub wait_for_data : Segment → ℕ → ℕ → Segment × Bool
unfolding contains
wait_for_data s waiter from =
    if contains waiter s.waiters
    then (s, false)
    else if ltb from s.position || leb s.max_bytes s.position
    then (s, true)
    else (record s { waiters = waiter ∷ s.waiters }, false)

unfoldable pub wait_for_leo : Segment → ℕ → ℤ → Segment × Bool
unfolding wait_for_data
wait_for_leo s waiter leo =
    if not (eqb_ℤ s.last_offset leo) then (s, true) else wait_for_data s waiter s.position

unfoldable pub close : Segment → Bool → Segment × Option Error
close s close_ok =
    if s.closed
    then (s, none)
    else if close_ok
    then (record s { closed = true }, none)
    else (s, some io_failed)

-- `Cleaned` and `Truncated`: an empty segment at the same base offset.
unfoldable pub emptied : Segment → Segment
unfolding new_segment
emptied s = new_segment s.base_offset s.max_bytes

-- `Replace`, where the file system obeys: the new segment, opened again, and the old one.
unfoldable pub replace : Segment → Segment → Segment × Segment
unfolding setup_index
replace s old =
    (setup_index (record s { closed = false }), record old { closed = true; replaced = true })

-- The search over the index of `findEntry` and `findEntryByTimestamp`.
unfoldable pub find_record : (Record → Bool) → Segment → Option Record
find_record p s = get_elem? s.records (search (length s.records) (holds_at p s.records))

unfoldable pub find_entry : Segment → ℤ → Option Record
unfolding find_record
find_entry s offset = find_record (λ r. leb_ℤ offset r.offset) s

unfoldable pub find_entry_by_timestamp : Segment → ℤ → Option Record
unfolding find_record
find_entry_by_timestamp s timestamp = find_record (λ r. leb_ℤ timestamp r.timestamp) s
