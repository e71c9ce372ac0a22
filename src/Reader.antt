-- ===== src/Reader.antt =====
-- server/commitlog/reader.go with the searches of util.go: readers of a log. A reader holds a segment
-- by its base offset. Between two waits the log stays as it is; `worlds` are the logs that a reader
-- finds when it wakes up, and when they run out it is cancelled. That a segment is replaced by a
-- compaction while it is read is left out. How many bytes are read is what is modelled; their
-- contents are the records at the position.
pub mod Within
pub mod Limit
pub mod Start
pub mod Stops
pub mod Rounds
pub mod Ends
mod Tests
use liftbridge.Common.{
  ℕ, zero, suc, ◌+◌, ◌-◌, ℤ, pos, minus_one, ◌+ℤ◌, leb_ℤ, ltb_ℤ, eqb_ℤ, Bool, true, false, ◌&&◌,
  not, List, [], ◌∷◌, Option, none, some, ltb, ◌==◌, if◌then◌else◌, length, get_elem?,
}
use liftbridge.Common.Search.{search, holds_at}
use liftbridge.Segment.{Record, Segment, read_error, find_entry}
use liftbridge.Segment
use liftbridge.Log.{Log, segments, find_segment_index}

pub data Error : Type 0 where
  segment_not_found entry_not_found no_segment end_of_file : Error
  segment_error : Segment.Error → Error

pub data Result (A : Type 0) : Type 0 where
  ok : A → Result A
  error : Error → Result A

-- `findSegment`.
unfoldable pub find_segment : List Segment → ℤ → Option Segment
find_segment ss offset = get_elem? ss (find_segment_index ss offset)

unfoldable pub find_segment_by_base_offset : List Segment → ℤ → Option Segment
find_segment_by_base_offset ss offset =
    get_elem? ss (search (length ss) (holds_at (λ s. leb_ℤ offset s.base_offset) ss))

-- Where a record ends in a segment: the base offset and the position.
pub record Place : Type 0 where
  pub base : ℤ
  pub at : ℕ

end_in : Segment → Option Record → Result Place
end_in s none = error entry_not_found
end_in s (some r) = ok (record { base = s.base_offset; at = r.position + r.size })

end_of_hw : ℤ → Option Segment → Result Place
unfolding end_in
end_of_hw hw none = error segment_not_found
end_of_hw hw (some s) = end_in s (find_entry s hw)

-- `getHWPos`.
unfoldable pub get_hw_pos : List Segment → ℤ → Result Place
unfolding end_of_hw find_segment
get_hw_pos ss hw = end_of_hw hw (find_segment ss hw)

start_in : Segment → Option Record → Result Place
start_in s none = error entry_not_found
start_in s (some r) = ok (record { base = s.base_offset; at = r.position })

not_nil : Result Place → Result (Option Place)
not_nil (ok p) = ok (some p)
not_nil (error e) = error e

-- The place of an offset: that of its entry if it is not before the segment, else the front of it.
place_in : ℤ → Option Segment → Result (Option Place)
unfolding start_in not_nil
place_in offset none = ok none
place_in offset (some s) =
    if leb_ℤ s.base_offset offset
    then not_nil (start_in s (find_entry s offset))
    else ok (some (record { base = s.base_offset; at = 0 }))

-- `findSegmentContains` and `findEntry`; none is a nil segment.
unfoldable pub find_place : List Segment → ℤ → Result (Option Place)
unfolding place_in find_segment
find_place ss offset = place_in offset (find_segment ss offset)

found_or : Result (Option Place) → Result Place
found_or (ok none) = error segment_not_found
found_or (ok (some p)) = ok p
found_or (error e) = error e

-- `newReaderUncommitted`.
unfoldable pub new_reader_uncommitted : Log → ℤ → Result Place
unfolding found_or find_place
new_reader_uncommitted l offset = found_or (find_place (segments l) offset)

-- `committedReader`: where it reads, if its segment is not nil, and where the high watermark ends.
pub record Committed : Type 0 where
  pub next : Option Place
  pub limit : Option Place
  pub hw : ℤ

started : ℤ → Option Place → Result (Option Place) → Result Committed
started hw limit (ok next) = ok (record { next = next; limit = limit; hw = hw })
started hw limit (error e) = error e

limited : Log → ℤ → Result Place → Result Committed
unfolding started find_place
limited l offset (ok limit) = started l.hw (some limit) (find_place (segments l) offset)
limited l offset (error e) = error e

-- `newReaderCommitted`.
unfoldable pub new_reader_committed : Log → ℤ → Result Committed
unfolding limited get_hw_pos started
new_reader_committed l offset =
    if ltb_ℤ l.hw offset
    then ok (record { next = none; limit = none; hw = l.hw })
    else if eqb_ℤ l.hw minus_one
    then started l.hw none (find_place (segments l) offset)
    else limited l offset (get_hw_pos (segments l) l.hw)

-- What a read of so many bytes returns: the reader and how many it has read, with an error or not.
pub data Outcome : Type 0 where
  done : Committed → ℕ → Outcome
  failed : Committed → ℕ → Error → Outcome
  panicked out_of_rounds : Outcome

-- The log when the high watermark is another one, and the worlds after it.
unfoldable pub wait_for_change : ℤ → List Log → Option (Log × List Log)
wait_for_change hw [] = none
wait_for_change hw (l ∷ worlds) =
    let rest = wait_for_change hw worlds in if eqb_ℤ l.hw hw then rest else some (l, worlds)

-- The segment that a reader holds.
unfoldable pub held : List Segment → ℤ → Option Segment
held [] base = none
held (s ∷ ss) base = let rest = held ss base in if eqb_ℤ s.base_offset base then some s else rest

unfoldable pub smaller : ℕ → ℕ → ℕ
smaller a b = if ltb b a then b else a

-- The bytes that the limit leaves, none if the position is beyond it.
unfoldable pub room : Option Place → Place → ℕ → Option ℕ
unfolding smaller
room none p wanted = some wanted
room (some limit) p wanted =
    if eqb_ℤ limit.base p.base
    then if ltb limit.at p.at then none else some (smaller wanted (limit.at - p.at))
    else some wanted

abbrev pub Next : Type 0
Next = Log → List Log → Committed → ℕ → Outcome

-- The end of a segment: the next one.
move_on : Next → Log → List Log → Committed → ℕ → Option Segment → Outcome
move_on next l worlds r n none = failed r n no_segment
move_on next l worlds r n (some s) =
    next l worlds (record r { next = some (record { base = s.base_offset; at = 0 }) }) n

-- The limit is set to the new high watermark. An error of `getHWPos` is lost: it is assigned to a
-- variable of the block, so that the read ends without an error.
relimit : Next → Log → List Log → Committed → ℕ → Result Place → Outcome
relimit next l worlds r n (ok limit) = next l worlds (record r { hw = l.hw; limit = some limit }) n
relimit next l worlds r n (error e) = done (record r { hw = l.hw }) n

synced : Next → Committed → ℕ → Option (Log × List Log) → Outcome
unfolding relimit get_hw_pos
synced next r n none = failed r n end_of_file
synced next r n (some (l, worlds)) = relimit next l worlds r n (get_hw_pos (segments l) l.hw)

-- What follows a read of `size` bytes, of `wanted`.
after_read : Next → Log → List Log → ℕ → Committed → ℕ → Place → ℕ → ℕ → Outcome
unfolding move_on synced find_segment_by_base_offset wait_for_change
after_read next l worlds len r n p size wanted =
    let moved = record r { next = some (record { base = p.base; at = p.at + size }) } in
    if n + size == len
    then done moved (n + size)
    else if not (size == 0) && not (ltb size wanted)
    then next l worlds moved (n + size)
    else if ltb size wanted
    then move_on next l worlds moved (n + size)
        (find_segment_by_base_offset (segments l) (p.base +ℤ pos 1))
    else synced next moved (n + size) (wait_for_change r.hw (l ∷ worlds))

-- `ReadAt` of the bytes from `n` up to the limit; the slice panics if the limit is below `n`.
read_at : Next → Log → List Log → ℕ → Committed → ℕ → Place → Option ℕ → Option Segment → Outcome
unfolding after_read smaller
read_at next l worlds len r n p none s = panicked
read_at next l worlds len r n p (some lim) none = failed r n (segment_error Segment.segment_closed)
read_at next l worlds len r n p (some lim) (some s) =
    if ltb lim n then panicked else elim (read_error s) [
      | some e ↦ failed r n (segment_error e)
      | none ↦ after_read next l worlds len r n p (smaller (lim - n) (s.position - p.at)) (lim - n)
    ]

round : Next → Log → List Log → ℕ → Committed → ℕ → Option Place → Outcome
unfolding read_at room held
round next l worlds len r n none = panicked
round next l worlds len r n (some p) =
    read_at next l worlds len r n p (room r.limit p (len - n)) (held (segments l) p.base)

-- `readLoop`, on fuel.
unfoldable pub read_loop : ℕ → Log → List Log → ℕ → Committed → ℕ → Outcome
unfolding round
read_loop zero l worlds len r n = out_of_rounds
read_loop (suc k) l worlds len r n =
    round (λ l' worlds' r' n'. read_loop k l' worlds' len r' n') l worlds len r n r.next

-- The rest of a read whose segment was nil, at the log with a new high watermark. After an error the
-- reader is not used again.
resume : ℕ → Log → List Log → ℕ → Committed → Place → Result Place → Outcome
unfolding read_loop
resume k l worlds len r limit (error e) = failed r 0 e
resume k l worlds len r limit (ok p) =
    read_loop k l worlds len (record { next = some p; limit = some limit; hw = l.hw }) 0

start_at : ℤ → Option Segment → Result Place
unfolding start_in
start_at offset none = error segment_not_found
start_at offset (some s) = start_in s (find_entry s offset)

with_limit : ℕ → Log → List Log → ℕ → Committed → Result Place → Outcome
unfolding resume start_at find_segment
with_limit k l worlds len r (error e) = failed r 0 e
with_limit k l worlds len r (ok limit) =
    resume k l worlds len r limit
      (start_at (r.hw +ℤ pos 1) (find_segment (segments l) (r.hw +ℤ pos 1)))

woken : ℕ → ℕ → Committed → Option (Log × List Log) → Outcome
unfolding with_limit get_hw_pos
woken k len r none = failed r 0 end_of_file
woken k len r (some (l, worlds)) = with_limit k l worlds len r (get_hw_pos (segments l) l.hw)

read_from : ℕ → Log → List Log → ℕ → Committed → Option Place → Outcome
unfolding woken read_loop wait_for_change
read_from k l worlds len r none = woken k len r (wait_for_change r.hw (l ∷ worlds))
read_from k l worlds len r (some p) = read_loop k l worlds len r 0

-- `committedReader.Read` into a buffer of so many bytes.
unfoldable pub read : ℕ → Log → List Log → ℕ → Committed → Outcome
unfolding read_from
read k l worlds len r = read_from k l worlds len r r.next
