-- ===== src/Log/Append.antt =====
-- What an append does to a well-formed log.
use liftbridge.Common.{
  ℕ, ◌+◌, ◌≡◌, ◌≢◌, refl, ap, ◌∙◌, ◌⊎◌, inl, inr, ℤ, pos, ◌+ℤ◌, ◌<ℤ◌, true, false, List, [], ◌∷◌,
  ◌++◌, map, arith, Bool-cases, All,
}
use liftbridge.Segment.{Record, next_offset, check_split}
use liftbridge.Segment.Write.{Rising}
use liftbridge.Epochs.{Disk}
use liftbridge.Log.{
  Log, Message, segments, newest_offset, new_records, split, check_and_perform_split,
  append_records, append,
}
use liftbridge.Log.Order.{view, IsValidLog, newest_offset-next}
use liftbridge.Log.Split.{split-newest, split-IsValidLog, split-view, split-hw, not_same_file}
use liftbridge.Log.Extend.{AllGood, Appends, Appends-map, IsExtended, append_records-IsExtended}

-- Consecutive offsets.
abbrev pub offsets_from : ℤ → List Message → List ℤ
offsets_from offset [] = []
offsets_from offset (m ∷ ms) = offset ∷ offsets_from (offset +ℤ pos 1) ms

new_records-offsets :
    (offset : ℤ) (position : ℕ) (ms : List Message)
    → map (λ (r : Record). r.offset) (new_records offset position ms) ≡ offsets_from offset ms
unfolding new_records
new_records-offsets offset position [] = refl
new_records-offsets offset position (m ∷ ms) =
    ap (◌∷◌ offset) (new_records-offsets (offset +ℤ pos 1) (position + m.size) ms)

new_records-Rising :
    (offset : ℤ) (position : ℕ) (ms : List Message) → Rising offset (new_records offset position ms)
unfolding new_records
new_records-Rising offset position [] = tt
new_records-Rising offset position (m ∷ ms) =
    (omega arith, new_records-Rising (offset +ℤ pos 1) (position + m.size) ms)

new_records-stamped :
    (offset : ℤ) (position : ℕ) (ms : List Message)
    → All (λ (x : Message). pos 0 <ℤ x.timestamp) ms
    → All (λ (r : Record). pos 0 <ℤ r.timestamp) (new_records offset position ms)
unfolding new_records
new_records-stamped offset position [] h = tt
new_records-stamped offset position (m ∷ ms) h =
    (h.0, new_records-stamped (offset +ℤ pos 1) (position + m.size) ms h.1)

-- The log after the append of some messages to another log.
pub record IsAppended (l l' : Log) (ms : List Message) (offsets : List ℤ) : Type 0 where
  pub valid : IsValidLog l'
  pub position : ℕ
  pub records :
      view (segments l') ≡ view (segments l) ++ new_records (newest_offset l +ℤ pos 1) position ms
  pub consecutive : offsets ≡ offsets_from (newest_offset l +ℤ pos 1) ms
  pub watermark : l'.hw ≡ l.hw

-- An append to the active segment, with no split before it.
append_records-IsAppended :
    (disk : Disk) (l : Log) (m : Message) (ms : List Message)
    → IsValidLog l
    → AllGood disk
    → All (λ (x : Message). pos 0 <ℤ x.timestamp) (m ∷ ms)
    → Appends
        (append_records disk l (new_records (next_offset l.active) l.active.position (m ∷ ms)) true)
        (λ l' offsets. IsAppended l l' (m ∷ ms) offsets)
unfolding new_records
append_records-IsAppended disk l m ms v good times =
    let next = next_offset l.active in
    let start = l.active.position in
    Appends-map _ (λ l' offsets. IsExtended l l' (new_records next start (m ∷ ms)) offsets) _
      (λ l' offsets h. record {
        valid = h.valid;
        position = start;
        records = rw (newest_offset-next l) h.records;
        consecutive =
            rw (newest_offset-next l) (h.offsets_of ∙ new_records-offsets next start (m ∷ ms));
        watermark = h.watermark;
      })
      (append_records-IsExtended disk l _ _ v good (new_records-Rising next start (m ∷ ms))
        (new_records-stamped next start (m ∷ ms) times))

-- A log appended to after a split is the log appended to before it.
after_split :
    (l l' : Log) (ms : List Message) (offsets : List ℤ)
    → IsAppended (split l) l' ms offsets
    → IsAppended l l' ms offsets
after_split l l' ms offsets h = record {
  valid = h.valid;
  position = h.position;
  records = rw (split-newest l, split-view l) at h.records;
  consecutive = rw (split-newest l) at h.consecutive;
  watermark = h.watermark ∙ split-hw l;
}

-- An append to a well-formed log of at least one message, all stamped after the epoch, where the
-- disk obeys and the active segment is not both due for a split and empty: it succeeds; the new
-- log is well-formed; its records are the old ones and then the messages, in order, at consecutive
-- offsets from one past the newest offset on; those are the offsets returned; the high watermark
-- stays. Whether a segment was rolled out makes no difference.
pub append-IsAppended :
    (disk : Disk) (l : Log) (log_roll_time now : ℤ) (m : Message) (ms : List Message)
    → IsValidLog l
    → AllGood disk
    → All (λ (x : Message). pos 0 <ℤ x.timestamp) (m ∷ ms)
    → (check_split l.active log_roll_time now ≡ false) ⊎ (l.active.records ≢ [])
    → Appends
        (append disk l log_roll_time now (m ∷ ms) true)
        (λ l' offsets. IsAppended l l' (m ∷ ms) offsets)
unfolding append check_and_perform_split
append-IsAppended disk l roll now m ms v good times room =
    elim (Bool-cases (check_split l.active roll now)) [
      | inr same ↦ rw same (append_records-IsAppended disk l m ms v good times)
      | inl full ↦
          let ne : l.active.records ≢ [] = elim room [ inl no_split ↦ cc | inr h ↦ h ] in
          rw (full, not_same_file l v ne)
            (Appends-map _ (λ l' offsets. IsAppended (split l) l' (m ∷ ms) offsets) _
              (λ l' offsets. after_split l l' (m ∷ ms) offsets)
              (append_records-IsAppended disk (split l) m ms (split-IsValidLog l v) good times))
    ]
