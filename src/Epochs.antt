-- ===== src/Epochs.antt =====
-- The leader epoch cache of server/commitlog/leader_epoch_cache.go. The state is the slice of
-- entries and the checkpoint file; a mutation returns the new cache and its error. Whether the disk
-- takes a write is a parameter, the `Disk`. Locks and log lines are left out.
pub mod Order
pub mod Lookup
pub mod Clear
pub mod Rebase
pub mod Checkpoint
mod Tests
use liftbridge.Common.{
  ℕ, zero, suc, ◌+◌, ◌-◌, ◌%◌, ◌^◌, ℤ, minus_one, ltb_ℤ, leb_ℤ, Bool, true, false, ◌&&◌, ◌||◌, List,
  [], ◌∷◌, ◌++◌, Option, none, some, ltb, leb, ◌==◌, if◌then◌else◌, length, last_of, drop, keep,
  get_elem?,
}
use liftbridge.Common.Search.{search, holds_at}
use liftbridge.Decimal.{Bytes, format_uint, format_int}

-- A uint64 epoch and the int64 offset at which it starts.
pub record EpochOffset : Type 0 where
  pub leader_epoch : ℕ
  pub start_offset : ℤ

-- `file_backed` is `checkpointFile != ""`; `file` is the content on disk, if there is any.
pub record Cache : Type 0 where
  pub epoch_offsets : List EpochOffset
  pub file_backed : Bool
  pub file : Option Bytes

pub data Error : Type 0 where
  flush_failed : Error

-- Whether an atomic write of this content succeeds.
abbrev pub Disk : Type 0
Disk = Bytes → Bool

abbrev pub epoch_mod : ℕ
epoch_mod = 2 ^ 64

unfoldable pub new_no_file : Cache
new_no_file = record { epoch_offsets = []; file_backed = false; file = none }

abbrev pub earliest_of : List EpochOffset → ℤ
earliest_of [] = minus_one
earliest_of (e ∷ es) = e.start_offset

abbrev pub latest_epoch_of : List EpochOffset → ℕ
latest_epoch_of [] = 0
latest_epoch_of (e ∷ es) = (last_of e es).leader_epoch

abbrev pub latest_offset_of : List EpochOffset → ℤ
latest_offset_of [] = minus_one
latest_offset_of (e ∷ es) = (last_of e es).start_offset

unfoldable pub earliest_offset : Cache → ℤ
earliest_offset l = earliest_of l.epoch_offsets

unfoldable pub latest_epoch : Cache → ℕ
latest_epoch l = latest_epoch_of l.epoch_offsets

unfoldable pub latest_offset : Cache → ℤ
latest_offset l = latest_offset_of l.epoch_offsets

-- The lines `leader_epoch start_offset`.
unfoldable pub entry_lines : List EpochOffset → Bytes
entry_lines [] = []
entry_lines (e ∷ es) =
    format_uint e.leader_epoch ++ (b' ' ∷ (format_int e.start_offset ++ (b'\n' ∷ entry_lines es)))

-- What `flush` writes: the version, the number of entries, and the entries.
unfoldable pub checkpoint : List EpochOffset → Bytes
unfolding entry_lines
checkpoint es = format_uint 0 ++ (b'\n' ∷ (format_uint (length es) ++ (b'\n' ∷ entry_lines es)))

-- `if err != nil { return err }`.
abbrev pub and_then : Cache × Option Error → (Cache → Cache × Option Error) → Cache × Option Error
and_then (l, none) f = f l
and_then (l, some err) f = (l, some err)

module _ (disk : Disk) where
  unfoldable pub flush : Cache → Cache × Option Error
  flush l =
      let content = checkpoint l.epoch_offsets in
      if l.file_backed
      then (if disk content
          then (record l { file = some content }, none)
          else (l, some flush_failed))
      else (l, none)

  unfoldable pub assign : Cache → ℕ → ℤ → Cache × Option Error
  unfolding flush latest_epoch latest_offset
  assign l epoch offset =
      if ltb (latest_epoch l) epoch && leb_ℤ (latest_offset l) offset
      then flush (record l {
        epoch_offsets =
            l.epoch_offsets ++ (record { leader_epoch = epoch; start_offset = offset }) ∷ [];
      })
      else (l, none)

  unfoldable pub clear_latest : Cache → ℤ → Cache × Option Error
  unfolding flush latest_offset
  clear_latest l offset =
      if ltb_ℤ (latest_offset l) offset
      then (l, none)
      else flush
          (record l { epoch_offsets = keep (λ e. ltb_ℤ e.start_offset offset) l.epoch_offsets })

  -- The rest of `ClearEarliest` once the entries below the offset are collected.
  clear_below : Cache → ℤ → List EpochOffset → Cache × Option Error
  unfolding flush
  clear_below l offset [] = (l, none)
  clear_below l offset (e ∷ es) =
      let remaining = drop (length (e ∷ es)) l.epoch_offsets in
      let moved =
        remaining
        ++ (record { leader_epoch = (last_of e es).leader_epoch; start_offset = offset }) ∷ [] in
      if ltb_ℤ offset (earliest_of remaining) || length remaining == 0
      then flush (record l { epoch_offsets = moved })
      else flush (record l { epoch_offsets = remaining })

  unfoldable pub clear_earliest : Cache → ℤ → Cache × Option Error
  unfolding earliest_offset clear_below
  clear_earliest l offset =
      if leb_ℤ offset (earliest_offset l)
      then (l, none)
      else clear_below l offset (keep (λ e. ltb_ℤ e.start_offset offset) l.epoch_offsets)

  -- The loop of `Rebase`, which stops at the first error.
  unfoldable pub assign_newer : Cache → List EpochOffset → Cache × Option Error
  assign_newer l [] = (l, none)
  assign_newer l (e ∷ es) =
      let next = and_then (assign l e.leader_epoch e.start_offset) (λ l'. assign_newer l' es) in
      let skip = assign_newer l es in if ltb (latest_epoch l) e.leader_epoch then next else skip

  unfoldable pub rebase : Cache → Cache → ℤ → Cache × Option Error
  rebase l from offset =
      let i =
        search (length from.epoch_offsets)
          (holds_at (λ e. leb_ℤ offset e.start_offset) from.epoch_offsets) in
      and_then (assign_newer l (drop i from.epoch_offsets)) flush

  unfoldable pub replace : Cache → Cache → Cache × Option Error
  unfolding flush
  replace l from = flush (record l { epoch_offsets = from.epoch_offsets })

unfoldable pub find_epoch : Cache → ℕ → Option EpochOffset
unfolding search
find_epoch l epoch =
    get_elem? l.epoch_offsets
      (search (length l.epoch_offsets) (holds_at (λ e. leb epoch e.leader_epoch) l.epoch_offsets))

-- `epoch + 1` is a uint64.
unfoldable pub last_offset_for_leader_epoch : Cache → ℕ → ℤ
unfolding find_epoch
last_offset_for_leader_epoch l epoch = elim (find_epoch l ((epoch + 1) % epoch_mod)) [
  | none ↦ minus_one
  | some e ↦ e.start_offset
]
