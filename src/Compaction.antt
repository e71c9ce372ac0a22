-- ===== src/Compaction.antt =====
-- server/commitlog/compact_cleaner.go: the cleaner that keeps the last message of each key. The
-- goroutines that scan the keys take the segments in order, so that together they see every message
-- up to the first one beyond the high watermark; what they store does not depend on their order. The
-- calls of the file system succeed.
pub mod Kept
pub mod Latest
pub mod Refines
mod Tests
use liftbridge.Common.{
  eqb_bytes, ℕ, suc, ℤ, pos, leb_ℤ, ltb_ℤ, eqb_ℤ, Bool, true, false, ◌&&◌, ◌||◌, List, [], ◌∷◌,
  ◌++◌, Option, none, some, leb, ltb, ◌==◌, if◌then◌else◌, length, last_of, init_of,
}
use liftbridge.Decimal.{Bytes}
use liftbridge.Segment.{Record, Segment, written, emptied, replace, is_empty}
use liftbridge.Epochs.{Cache, Disk, assign, latest_epoch, new_no_file}
use liftbridge.Log.Order.{view}

-- `string(key)`: a nil key is the empty string.
abbrev pub key_string : Option Bytes → Bytes
key_string none = []
key_string (some k) = k

-- `keyOffsets`.
pub record KeyOffset : Type 0 where
  pub key : Bytes
  pub offset : ℤ

abbrev pub KeyOffsets : Type 0
KeyOffsets = List KeyOffset

unfoldable pub load : Bytes → KeyOffsets → Option ℤ
load key [] = none
load key (k ∷ ks) = let rest = load key ks in if eqb_bytes k.key key then some k.offset else rest

-- `LoadOrStore`, then `set` if the key was there.
unfoldable pub store : Bytes → ℤ → KeyOffsets → KeyOffsets
store key offset [] = (record { key = key; offset = offset }) ∷ []
store key offset (k ∷ ks) =
    let rest = store key offset ks in
    if eqb_bytes k.key key
    then record k { offset = if ltb_ℤ k.offset offset then offset else k.offset } ∷ ks
    else k ∷ rest

unfoldable pub scan_records : ℤ → List Record → KeyOffsets → KeyOffsets
scan_records hw [] ks = ks
scan_records hw (r ∷ rs) ks =
    let rest = scan_records hw rs (store (key_string r.key) r.offset ks) in
    if ltb_ℤ hw r.offset then ks else rest

unfoldable pub scan_keys : ℤ → List Segment → KeyOffsets
unfolding scan_records
scan_keys hw ss = scan_records hw (view ss) []

abbrev pub offset_or_zero : Option ℤ → ℤ
offset_or_zero none = pos 0
offset_or_zero (some o) = o

abbrev pub is_nil : Option Bytes → Bool
is_nil none = true
is_nil (some k) = false

-- Whether `cleanSegment` keeps a message.
unfoldable pub retains : KeyOffsets → ℤ → Record → Bool
retains ks hw r =
    is_nil r.key
    || eqb_ℤ r.offset (offset_or_zero (load (key_string r.key) ks))
    || leb_ℤ hw r.offset

module _ (disk : Disk) where
  -- The start of an epoch that is newer than those seen.
  unfoldable pub note_epoch : Cache → Record → Cache
  note_epoch c r =
      if ltb (latest_epoch c) r.leader_epoch then (assign disk c r.leader_epoch r.offset).0 else c

  -- The loop of `cleanSegment`: a message that is kept is written to the new segment, at its end.
  unfoldable pub clean_records : (Record → Bool) → List Record → Segment → Cache → Segment × Cache
  unfolding note_epoch
  clean_records keeps [] t c = (t, c)
  clean_records keeps (r ∷ rs) t c =
      let kept =
        clean_records keeps rs (written t r.size (record r { position = t.position }) [])
          (note_epoch c r) in
      let dropped = clean_records keeps rs t c in if keeps r then kept else dropped

  -- An empty segment goes with the old one.
  unfoldable pub clean_segment : (Record → Bool) → Segment → Cache → List Segment × Cache
  unfolding clean_records
  clean_segment keeps s c =
      let cleaned = clean_records keeps s.records (emptied s) c in
      if is_empty cleaned.0 then ([], cleaned.1) else ((replace cleaned.0 s).0 ∷ [], cleaned.1)

  unfoldable pub clean_segments : (Record → Bool) → List Segment → Cache → List Segment × Cache
  unfolding clean_segment
  clean_segments keeps [] c = ([], c)
  clean_segments keeps (s ∷ ss) c =
      let first = clean_segment keeps s c in
      let rest = clean_segments keeps ss first.1 in (first.0 ++ rest.0, rest.1)

  unfoldable pub note_epochs : Cache → List Record → Cache
  unfolding note_epoch
  note_epochs c [] = c
  note_epochs c (r ∷ rs) = note_epochs (note_epoch c r) rs

  -- `compact` of these older segments and the last one.
  unfoldable pub compact : ℤ → List Segment → Segment → List Segment × Cache
  unfolding scan_keys retains clean_segments note_epochs
  compact hw older last =
      let keeps = retains (scan_keys hw (older ++ last ∷ [])) hw in
      let cleaned = clean_segments keeps older new_no_file in
      (cleaned.0 ++ last ∷ [], note_epochs cleaned.1 last.records)

  compact_from : ℤ → Segment → List Segment → List Segment × Option Cache
  unfolding compact
  compact_from hw s [] = (s ∷ [], none)
  compact_from hw s (t ∷ ss) =
      let r = compact hw (init_of s (t ∷ ss)) (last_of s (t ∷ ss)) in (r.0, some r.1)

  -- `Compact`.
  unfoldable pub compact_log : ℤ → List Segment → List Segment × Option Cache
  unfolding compact_from
  compact_log hw [] = ([], none)
  compact_log hw (s ∷ ss) = compact_from hw s ss
