-- ===== src/Log/Replicate.antt =====
-- What a follower's append of the leader's messages does to a well-formed log.
use liftbridge.Common.{
  ℕ, ◌+◌, ◌≡◌, ◌≢◌, refl, ap, ◌∙◌, ◌⊎◌, inl, inr, ℤ, pos, ◌+ℤ◌, ◌<ℤ◌, true, false, List, [], ◌∷◌,
  ◌++◌, map, some, Bool-cases, All,
}
use liftbridge.Segment.{Record, check_split, next_offset}
use liftbridge.Segment.Write.{Rising, end_of}
use liftbridge.Epochs.{Disk}
use liftbridge.Log.{
  Log, segments, newest_offset, split, check_and_perform_split, entries_for_message_set,
  append_set_after_split, append_message_set,
}
use liftbridge.Log.Order.{view, IsValidLog, newest_offset-next}
use liftbridge.Log.Extend.{AllGood, Appends, Appends-map, IsExtended, append_records-IsExtended}
use liftbridge.Log.Split.{not_same_file, split-IsValidLog, split-newest, split-view, split-hw}

entries-Rising :
    (lo : ℤ) (base : ℕ) (rs : List Record)
    → Rising lo rs
    → Rising lo (entries_for_message_set base rs)
unfolding entries_for_message_set
entries-Rising lo base [] h = tt
entries-Rising lo base (r ∷ rs) h = (h.0, entries-Rising (r.offset +ℤ pos 1) (base + r.size) rs h.1)

entries-stamped :
    (base : ℕ) (rs : List Record)
    → All (λ (r : Record). pos 0 <ℤ r.timestamp) rs
    → All (λ (r : Record). pos 0 <ℤ r.timestamp) (entries_for_message_set base rs)
unfolding entries_for_message_set
entries-stamped base [] h = tt
entries-stamped base (r ∷ rs) h = (h.0, entries-stamped (base + r.size) rs h.1)

entries-offsets :
    (base : ℕ) (rs : List Record)
    → map (λ (r : Record). r.offset) (entries_for_message_set base rs)
      ≡ map (λ (r : Record). r.offset) rs
unfolding entries_for_message_set
entries-offsets base [] = refl
entries-offsets base (r ∷ rs) = ap (◌∷◌ r.offset) (entries-offsets (base + r.size) rs)

entries-end_of :
    (lo : ℤ) (base : ℕ) (rs : List Record)
    → end_of lo (entries_for_message_set base rs) ≡ end_of lo rs
unfolding entries_for_message_set
entries-end_of lo base [] = refl
entries-end_of lo base (r ∷ rs) = entries-end_of (r.offset +ℤ pos 1) (base + r.size) rs

-- The log after some messages with offsets have been put at its end.
pub record IsReplicated (l l' : Log) (rs : List Record) (offsets : List ℤ) : Type 0 where
  pub valid : IsValidLog l'
  pub position : ℕ
  pub records : view (segments l') ≡ view (segments l) ++ entries_for_message_set position rs
  pub offsets_of : offsets ≡ map (λ (r : Record). r.offset) rs
  pub watermark : l'.hw ≡ l.hw
  pub next : newest_offset l' +ℤ pos 1 ≡ end_of (newest_offset l +ℤ pos 1) rs
  pub not_empty : l'.active.records ≢ []

set_after_split :
    (disk : Disk) (l : Log) (r : Record) (rs : List Record)
    → IsValidLog l
    → AllGood disk
    → Rising (newest_offset l +ℤ pos 1) (r ∷ rs)
    → All (λ (x : Record). pos 0 <ℤ x.timestamp) (r ∷ rs)
    → Appends
        (append_set_after_split disk (some l) (r ∷ rs) true)
        (λ l' offsets. IsReplicated l l' (r ∷ rs) offsets)
unfolding append_set_after_split entries_for_message_set
set_after_split disk l r rs v good rising stamped =
    let start = l.active.position in
    Appends-map _ (λ l' offsets. IsExtended l l' (entries_for_message_set start (r ∷ rs)) offsets) _
      (λ l' offsets h. record {
        valid = h.valid;
        position = start;
        records = h.records;
        offsets_of = h.offsets_of ∙ entries-offsets start (r ∷ rs);
        watermark = h.watermark;
        next =
            newest_offset-next l' ∙ h.next ∙ entries-end_of (next_offset l.active) start (r ∷ rs);
        not_empty = h.not_empty;
      })
      (append_records-IsExtended disk l _ _ v good
        (entries-Rising (next_offset l.active) start (r ∷ rs) (rw (newest_offset-next l) at rising))
        (entries-stamped start (r ∷ rs) stamped))

-- A follower's append to a well-formed log of at least one message, whose offsets rise from one past
-- the newest offset on (with gaps or without), all stamped after the epoch, where the disk obeys and
-- the active segment is not both due for a split and empty: it succeeds; the new log is well-formed;
-- its records are the old ones and then the messages with the offsets that they came with; the newest
-- offset is that of the last message, and the active segment is not empty; the high watermark stays.
pub append_message_set-IsReplicated :
    (disk : Disk) (l : Log) (log_roll_time now : ℤ) (r : Record) (rs : List Record)
    → IsValidLog l
    → AllGood disk
    → Rising (newest_offset l +ℤ pos 1) (r ∷ rs)
    → All (λ (x : Record). pos 0 <ℤ x.timestamp) (r ∷ rs)
    → (check_split l.active log_roll_time now ≡ false) ⊎ (l.active.records ≢ [])
    → Appends
        (append_message_set disk l log_roll_time now (r ∷ rs) true)
        (λ l' offsets. IsReplicated l l' (r ∷ rs) offsets)
unfolding append_message_set check_and_perform_split
append_message_set-IsReplicated disk l roll now r rs v good rising stamped room =
    elim (Bool-cases (check_split l.active roll now)) [
      | inr same ↦ rw same (set_after_split disk l r rs v good rising stamped)
      | inl full ↦
          let ne : l.active.records ≢ [] = elim room [ inl no_split ↦ cc | inr h ↦ h ] in
          rw (full, not_same_file l v ne)
            (Appends-map _ (λ l' offsets. IsReplicated (split l) l' (r ∷ rs) offsets) _
              (λ l' offsets h. record {
                valid = h.valid;
                position = h.position;
                records = rw (split-view l) at h.records;
                offsets_of = h.offsets_of;
                watermark = h.watermark ∙ split-hw l;
                next = h.next;
                not_empty = h.not_empty;
              })
              (set_after_split disk (split l) r rs (split-IsValidLog l v) good
                (rw (split-newest l) rising) stamped))
    ]
