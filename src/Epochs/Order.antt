-- ===== src/Epochs/Order.antt =====
-- The order of the entries: leader epochs rise and start offsets do not fall.
use liftbridge.Common.{
  ℕ, ◌<◌, ◌≡◌, ℤ, ◌≤ℤ◌, ◌<ℤ◌, Bool, List, [], ◌∷◌, ◌++◌, arith, last_of, inl, inr, Bool-cases,
  ltb_ℤ, keep, keep_hit, keep_miss, lt→ltb, ap, ◌∙◌, All, All-append, ltb, leb_ℤ, if◌then◌else◌,
  ◌&&◌,
}
use liftbridge.Epochs.{
  EpochOffset, Cache, Disk, flush, assign, latest_epoch, latest_offset, latest_epoch_of,
  latest_offset_of,
}

abbrev pub Above : EpochOffset → List EpochOffset → Type 0
Above e [] = Unit {0}
Above e (f ∷ es) = (e.leader_epoch < f.leader_epoch) × (e.start_offset ≤ℤ f.start_offset)

abbrev pub IsOrderedList : List EpochOffset → Type 0
IsOrderedList [] = Unit {0}
IsOrderedList (e ∷ es) = Above e es × IsOrderedList es

-- An epoch of 0 means that there is no entry, so every entry has a positive one.
abbrev pub IsOrderedEntries : List EpochOffset → Type 0
IsOrderedEntries es = IsOrderedList es × All (λ e. 0 < e.leader_epoch) es

abbrev pub IsOrdered : Cache → Type 0
IsOrdered l = IsOrderedEntries l.epoch_offsets

pub IsOrderedList-append :
    (e : EpochOffset) (es : List EpochOffset) (f : EpochOffset)
    → IsOrderedList (e ∷ es)
    → Above (last_of e es) (f ∷ [])
    → IsOrderedList (e ∷ (es ++ f ∷ []))
IsOrderedList-append e [] f h a = (a, (tt, tt))
IsOrderedList-append e (d ∷ es) f h a = (h.0, IsOrderedList-append d es f h.1 a)

pub first_le :
    (e : EpochOffset) (es : List EpochOffset)
    → IsOrderedList (e ∷ es)
    → e.start_offset ≤ℤ (last_of e es).start_offset
first_le e [] h = omega arith
first_le e (f ∷ es) h = omega (arith, first_le f es h.1)

-- Writing the checkpoint file changes no entry.
pub flush_entries : (disk : Disk) (l : Cache) → (flush disk l).0.epoch_offsets ≡ l.epoch_offsets
unfolding flush
flush_entries disk l = ground arith

assign_lists :
    (es : List EpochOffset) (epoch : ℕ) (offset : ℤ)
    → IsOrderedEntries es
    → latest_epoch_of es < epoch
    → latest_offset_of es ≤ℤ offset
    → IsOrderedEntries (es ++ (record { leader_epoch = epoch; start_offset = offset }) ∷ [])
assign_lists [] epoch offset h lt le = ((tt, tt), (omega arith, tt))
assign_lists (e ∷ es) epoch offset h lt le =
    (IsOrderedList-append e es _ h.0 (lt, le), All-append _ (e ∷ es) _ h.1 (omega arith, tt))

-- The entries after an assignment: one more exactly when the epoch is newer than the last one and
-- the offset is not below the last one, also where the disk refuses the write.
pub assign_lem :
    (disk : Disk) (l : Cache) (epoch : ℕ) (offset : ℤ)
    → (assign disk l epoch offset).0.epoch_offsets ≡ (
        if ltb (latest_epoch l) epoch && leb_ℤ (latest_offset l) offset
        then l.epoch_offsets ++ (record { leader_epoch = epoch; start_offset = offset }) ∷ []
        else l.epoch_offsets)
unfolding assign
assign_lem disk l epoch offset = ground arith

-- An assignment keeps the cache ordered, whether it is taken, refused or fails to reach the disk.
pub assign-IsOrdered :
    (disk : Disk) (l : Cache) (epoch : ℕ) (offset : ℤ)
    → IsOrdered l
    → IsOrdered (assign disk l epoch offset).0
unfolding latest_epoch latest_offset
assign-IsOrdered disk l epoch offset h =
    rw (assign_lem disk l epoch offset)
      (elim (Bool-cases (ltb (latest_epoch l) epoch && leb_ℤ (latest_offset l) offset)) [
        | inl new ↦
            rw new (assign_lists l.epoch_offsets epoch offset h (ground arith) (ground arith))
        | inr old ↦ rw old h
      ])

-- The entries that start below an offset.
abbrev pub is_below : ℤ → EpochOffset → Bool
is_below offset e = ltb_ℤ e.start_offset offset

pub keep_none :
    (offset : ℤ) (e : EpochOffset) (es : List EpochOffset)
    → offset ≤ℤ e.start_offset
    → IsOrderedList (e ∷ es)
    → keep (is_below offset) (e ∷ es) ≡ []
keep_none offset e [] le h = ground arith
keep_none offset e (f ∷ es) le h = ground (arith, keep_none offset f es (omega arith) h.1)

keep-Above :
    (offset : ℤ) (e : EpochOffset) (es : List EpochOffset)
    → Above e es
    → IsOrderedList es
    → Above e (keep (is_below offset) es)
keep-Above offset e [] a h = tt
keep-Above offset e (f ∷ es) a h = elim (Bool-cases (is_below offset f)) [
  | inl below ↦ rw (keep_hit (is_below offset) f es below) a
  | inr above ↦
      let none_left : keep (is_below offset) (f ∷ es) ≡ [] =
        keep_none offset f es (ground arith) h in
      rw none_left tt
]

pub keep-IsOrderedEntries :
    (offset : ℤ) (es : List EpochOffset)
    → IsOrderedEntries es
    → IsOrderedEntries (keep (is_below offset) es)
keep-IsOrderedEntries offset [] h = (tt, tt)
keep-IsOrderedEntries offset (e ∷ es) h =
    let (o, a) = keep-IsOrderedEntries offset es (h.0.1, h.1.1) in
    let above = keep-Above offset e es h.0.0 h.0.1 in
    elim (Bool-cases (is_below offset e)) [
      | inl below ↦ rw (keep_hit (is_below offset) e es below) ((above, o), (h.1.0, a))
      | inr other ↦ rw (keep_miss (is_below offset) e es other) (o, a)
    ]

-- The last entry starts last.
pub keep_all :
    (offset : ℤ) (e : EpochOffset) (es : List EpochOffset)
    → (last_of e es).start_offset <ℤ offset
    → IsOrderedList (e ∷ es)
    → keep (is_below offset) (e ∷ es) ≡ e ∷ es
keep_all offset e [] lt h = ground arith
keep_all offset e (f ∷ es) lt h =
    keep_hit (is_below offset) e (f ∷ es) (lt→ltb _ _ (omega (arith, first_le f es h.1)))
    ∙ ap (◌∷◌ e) (keep_all offset f es lt h.1)
