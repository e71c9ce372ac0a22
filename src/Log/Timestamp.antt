-- ===== src/Log/Timestamp.antt =====
-- server/commitlog/commitlog.go and util.go: the offset for a timestamp.
pub mod Probe
pub mod Earliest
mod Tests
use liftbridge.Common.{
  ℕ, zero, suc, ◌+◌, ◌-◌, ◌/◌, ℤ, ltb_ℤ, Bool, true, false, List, [], ◌∷◌, Option, none, some, ltb,
  ◌==◌, if◌then◌else◌, length, get_elem?,
}
use liftbridge.Segment.{Record, Segment, next_offset, find_entry_by_timestamp}
use liftbridge.Log.{Log, segments}

-- The loop of `sort.Search` over a test that may fail: a failure counts as true, and is remembered.
unfoldable pub probe_loop : ℕ → (ℕ → Option Bool) → ℕ → ℕ → Bool → ℕ × Bool
probe_loop zero f i j err = (i, err)
probe_loop (suc k) f i j err = elim (ltb i j) [
  | false ↦ (i, err)
  | true ↦ elim (f ((i + j) / 2)) [
    | none ↦ probe_loop k f i ((i + j) / 2) true
    | some b ↦ elim b [
      | true ↦ probe_loop k f i ((i + j) / 2) err
      | false ↦ probe_loop k f ((i + j) / 2 + 1) j err
    ]
  ]
]

first_after : ℤ → List Record → Option Bool
first_after timestamp [] = none
first_after timestamp (r ∷ rs) = some (ltb_ℤ timestamp r.timestamp)

-- Whether the first entry of a segment is later; a segment without entries gives `io.EOF`.
unfoldable pub starts_after : ℤ → Segment → Option Bool
unfolding first_after
starts_after timestamp s = first_after timestamp s.records

probe : ℤ → Option Segment → Option Bool
unfolding starts_after
probe timestamp none = none
probe timestamp (some s) = starts_after timestamp s

-- `findSegmentIndexByTimestamp`: the index, and whether there was an error.
unfoldable pub find_segment_index_by_timestamp : List Segment → ℤ → ℕ × Bool
unfolding probe_loop probe
find_segment_index_by_timestamp ss timestamp =
    probe_loop (length ss) (λ i. probe timestamp (get_elem? ss i)) 0 (length ss) false

offset_of : Option Record → Option ℤ
offset_of none = none
offset_of (some r) = some r.offset

-- The search of the segment at the index, or the offset after the log if there is none.
next_entry : ℤ → ℤ → Option Segment → Option ℤ
unfolding offset_of
next_entry end timestamp none = some end
next_entry end timestamp (some s) = offset_of (find_entry_by_timestamp s timestamp)

or_next : ℤ → ℤ → Option Segment → Option Record → Option ℤ
unfolding next_entry
or_next end timestamp next none = next_entry end timestamp next
or_next end timestamp next (some r) = some r.offset

-- The search of a segment, and then of the next one.
unfoldable pub search_segments : ℤ → ℤ → Option Segment → Option Segment → Option ℤ
unfolding or_next
search_segments end timestamp none next = none
search_segments end timestamp (some s) next =
    or_next end timestamp next (find_entry_by_timestamp s timestamp)

-- `OffsetForTimestamp`; none is an error.
unfoldable pub offset_for_timestamp : Log → ℤ → Option ℤ
unfolding find_segment_index_by_timestamp search_segments
offset_for_timestamp l timestamp =
    let ss = segments l in
    let at = find_segment_index_by_timestamp ss timestamp in
    let seg = if at.0 == 0 then get_elem? ss 0 else get_elem? ss (at.0 - 1) in
    if at.1 then none else search_segments (next_offset l.active) timestamp seg (get_elem? ss at.0)
