-- ===== src/Log.antt =====
-- server/commitlog/commitlog.go with util.go: the log as a sequence of segments, its high watermark
-- and its leader epoch cache. One thread at a time; the file system obeys except where an argument
-- says otherwise. `active` is the last segment, to which `vActiveSegment` points.
pub mod Order
pub mod Split
pub mod Extend
pub mod Append
pub mod Replicate
pub mod Cut
pub mod Truncate
pub mod Watermark
pub mod Cleaning
pub mod Timestamp
pub mod Obedient
pub mod Tests
use liftbridge.Common.{
  ℕ, zero, suc, ◌+◌, ℤ, pos, minus_one, ◌+ℤ◌, ◌-ℤ◌, leb_ℤ, ltb_ℤ, eqb_ℤ, Bool, true, false, ◌&&◌,
  not, List, [], ◌∷◌, ◌++◌, map, Option, none, some, ltb, ◌==◌, if◌then◌else◌, length, take,
  last_of, init_of, get_elem?,
}
use liftbridge.Common.Search.{search, holds_at}
use liftbridge.Decimal.{Bytes}
use liftbridge.Segment
use liftbridge.Segment.{
  Record, Segment, new_segment, next_offset, check_split, seal, write_message_set, written, emptied,
  replace,
}
use liftbridge.Epochs.{Cache, Disk, assign, clear_latest, and_then}
use liftbridge.Epochs

pub record Log : Type 0 where
  pub older : List Segment
  pub active : Segment
  pub hw : ℤ
  pub hw_waiters : List ℕ
  pub epochs : Cache
  pub max_segment_bytes : ℕ

-- A message before it has an offset, with the size of its message set.
pub record Message : Type 0 where
  pub key : Option Bytes
  pub timestamp : ℤ
  pub leader_epoch : ℕ
  pub size : ℕ

pub data Error : Type 0 where
  segment_error : Segment.Error → Error
  epoch_error : Epochs.Error → Error

abbrev pub segments : Log → List Segment
segments l = l.older ++ l.active ∷ []

unfoldable pub newest_offset : Log → ℤ
newest_offset l = next_offset l.active -ℤ pos 1

-- `findSegment`, the index only.
unfoldable pub find_segment_index : List Segment → ℤ → ℕ
find_segment_index ss offset = search (length ss) (holds_at (λ s. ltb_ℤ offset (next_offset s)) ss)

-- The index entries that `newMessageSetFromProto` makes. Their positions are not cut to the int32 in
-- which the source counts: `MessageSet.new_entries` is the function with the cut.
unfoldable pub new_records : ℤ → ℕ → List Message → List Record
new_records offset position [] = []
new_records offset position (m ∷ ms) =
    (record {
      offset = offset;
      timestamp = m.timestamp;
      leader_epoch = m.leader_epoch;
      position = position;
      size = m.size;
      key = m.key;
    })
    ∷ new_records (offset +ℤ pos 1) (position + m.size) ms

-- `entriesForMessageSet`, once the messages have been parsed: where they will lie in the file.
unfoldable pub entries_for_message_set : ℕ → List Record → List Record
entries_for_message_set base [] = []
entries_for_message_set base (r ∷ rs) =
    record r { position = base } ∷ entries_for_message_set (base + r.size) rs

abbrev pub total_size : List Record → ℕ
total_size [] = 0
total_size (r ∷ rs) = r.size + total_size rs

-- The new segment, and the sealed one before it.
unfoldable pub split : Log → Log
split l = record l {
  older = l.older ++ seal l.active ∷ [];
  active = new_segment (newest_offset l +ℤ pos 1) l.max_segment_bytes;
}

-- `checkAndPerformSplit`. A new segment at the base offset of the active one would be the same file:
-- the loop would then try again for ever (`none`).
unfoldable pub check_and_perform_split : Log → ℤ → ℤ → Option Log
check_and_perform_split l log_roll_time now =
    if check_split l.active log_roll_time now
    then if eqb_ℤ (newest_offset l +ℤ pos 1) l.active.base_offset then none else some (split l)
    else some l

pub data Outcome : Type 0 where
  appended : Log → List ℤ → Outcome
  failed : Log → Error → Outcome
  panicked stuck : Outcome

finish : Log → List ℤ → Cache × Option Epochs.Error → Outcome
finish l offsets (c, none) = appended (record l { epochs = c }) offsets
finish l offsets (c, some e) = failed (record l { epochs = c }) (epoch_error e)

-- The loop of `Truncate` that copies the messages below the offset.
unfoldable pub copy_below : ℤ → List Record → Segment → Segment
copy_below offset [] t = t
copy_below offset (r ∷ rs) t =
    let rest = copy_below offset rs (written t r.size r []) in
    if ltb_ℤ r.offset offset then rest else t

unfoldable pub truncated_segment : Segment → ℤ → Segment
truncated_segment s offset = (replace (copy_below offset s.records (emptied s)) s).0

-- The segments that `Truncate` leaves, given the index of the segment that holds the offset.
unfoldable pub truncate_at : List Segment → ℕ → Option Segment → ℤ → List Segment
truncate_at ss i none offset = ss
truncate_at ss i (some s) offset =
    if eqb_ℤ s.base_offset offset && not (i == 0)
    then take i ss
    else take i ss ++ truncated_segment s offset ∷ []

abbrev pub restore : Log → List Segment → Log
restore l [] = l
restore l (s ∷ ss) = record l { older = init_of s ss; active = last_of s ss }

unfoldable pub truncate_segments : List Segment → ℤ → List Segment
truncate_segments ss offset =
    let i = find_segment_index ss offset in truncate_at ss i (get_elem? ss i) offset

module _ (disk : Disk) where
  -- The loop of `append` over the entries, with the last epoch that it has seen.
  unfoldable pub assign_epochs : Cache → ℕ → List Record → Cache × Option Epochs.Error
  assign_epochs c last [] = (c, none)
  assign_epochs c last (r ∷ rs) =
      let next =
        and_then (assign disk c r.leader_epoch r.offset)
          (λ c'. assign_epochs c' r.leader_epoch rs) in
      let skip = assign_epochs c last rs in if ltb last r.leader_epoch then next else skip

  -- `append`, once the segment has been written to.
  after_write : Log → List Record → Segment.Outcome → Outcome
  unfolding finish
  after_write l rs (Segment.done a) =
      finish (record l { active = a }) (map (λ r. r.offset) rs)
        (assign_epochs l.epochs (Epochs.latest_epoch l.epochs) rs)
  after_write l rs (Segment.failed a e) = failed (record l { active = a }) (segment_error e)
  after_write l rs Segment.panicked = panicked

  unfoldable pub append_records : Log → List Record → Bool → Outcome
  unfolding after_write
  append_records l rs write_ok =
      after_write l rs (write_message_set l.active (total_size rs) rs write_ok)

  append_after_split : Option Log → List Message → Bool → Outcome
  append_after_split none ms write_ok = stuck
  append_after_split (some l) ms write_ok =
      append_records l (new_records (next_offset l.active) l.active.position ms) write_ok

  -- `Append`, at a time and with a roll time.
  unfoldable pub append : Log → ℤ → ℤ → List Message → Bool → Outcome
  unfolding append_after_split
  append l log_roll_time now ms write_ok =
      append_after_split (check_and_perform_split l log_roll_time now) ms write_ok

  append_set_after_split : Option Log → List Record → Bool → Outcome
  append_set_after_split none rs write_ok = stuck
  append_set_after_split (some l) rs write_ok =
      append_records l (entries_for_message_set l.active.position rs) write_ok

  -- `AppendMessageSet`: the messages have their offsets already.
  unfoldable pub append_message_set : Log → ℤ → ℤ → List Record → Bool → Outcome
  unfolding append_set_after_split
  append_message_set l log_roll_time now rs write_ok =
      append_set_after_split (check_and_perform_split l log_roll_time now) rs write_ok

  clear_epochs : Log → ℤ → Log × Option Epochs.Error
  clear_epochs l offset =
      let cleared = clear_latest disk l.epochs offset in
      (record l { epochs = cleared.0 }, cleared.1)

  truncated_log : Log → Option Segment → ℤ → Log × Option Epochs.Error
  unfolding clear_epochs
  truncated_log l none offset = (l, none)
  truncated_log l (some s) offset =
      clear_epochs (restore l (truncate_segments (segments l) offset)) offset

  -- `Truncate`, where deleting, writing and replacing files succeeds. If no segment holds the
  -- offset, the epochs stay as they are.
  unfoldable pub truncate : Log → ℤ → Log × Option Epochs.Error
  unfolding truncated_log
  truncate l offset =
      truncated_log l (get_elem? (segments l) (find_segment_index (segments l) offset)) offset

  unfoldable pub new_leader_epoch : Log → ℕ → Log × Option Epochs.Error
  new_leader_epoch l epoch =
      let assigned = assign disk l.epochs epoch (newest_offset l) in
      (record l { epochs = assigned.0 }, assigned.1)

unfoldable pub last_offset_for_leader_epoch : Log → ℕ → ℤ
last_offset_for_leader_epoch l epoch =
    let offset = Epochs.last_offset_for_leader_epoch l.epochs epoch in
    if eqb_ℤ offset minus_one then newest_offset l else offset

unfoldable pub notify_hw_waiters : Log → Log
notify_hw_waiters l = record l { hw_waiters = [] }

unfoldable pub set_high_watermark : Log → ℤ → Log
unfolding notify_hw_waiters
set_high_watermark l hw = if ltb_ℤ l.hw hw then notify_hw_waiters (record l { hw = hw }) else l

unfoldable pub override_high_watermark : Log → ℤ → Log
unfolding notify_hw_waiters
override_high_watermark l hw = notify_hw_waiters (record l { hw = hw })

-- `waitForHW`: the log, and whether the returned channel is closed already.
unfoldable pub wait_for_hw : Log → ℕ → ℤ → Log × Bool
wait_for_hw l waiter hw =
    if not (eqb_ℤ l.hw hw)
    then (l, true)
    else (record l { hw_waiters = waiter ∷ l.hw_waiters }, false)
