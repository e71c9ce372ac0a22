-- ===== src/Epochs/Clear.antt =====
-- `ClearLatest` and `ClearEarliest`: what they leave of an ordered cache.
use liftbridge.Common.{
  ◌<◌, ◌≡◌, ◌≢◌, refl, sym, ap, subst, ◌∙◌, ◌⊎◌, ℤ, ◌≤ℤ◌, ◌<ℤ◌, List, [], ◌∷◌, ◌++◌, arith, inl,
  inr, Bool-cases, ltb_ℤ, ◌||◌, ◌==◌, if◌then◌else◌, lt→ltb, lt→not_leb_ℤ, le→not_ltb_ℤ, suc_test,
  lt→ltb_ℤ, keep, keep_hit, drop, length, last_of, last_of-append,
}
use liftbridge.Epochs.{
  EpochOffset, Cache, Disk, clear_latest, clear_below, clear_earliest, latest_epoch, latest_offset,
  earliest_offset, latest_epoch_of, latest_offset_of, earliest_of,
}
use liftbridge.Epochs.Order.{
  IsOrdered, IsOrderedList, IsOrderedEntries, is_below, keep_none, keep_all, keep-IsOrderedEntries,
  flush_entries,
}

keep_all_list :
    (offset : ℤ) (es : List EpochOffset)
    → latest_offset_of es <ℤ offset
    → IsOrderedList es
    → keep (is_below offset) es ≡ es
keep_all_list offset [] lt h = refl
keep_all_list offset (e ∷ es) lt h = keep_all offset e es lt h

-- On an ordered cache `ClearLatest` leaves the entries that start below the offset and no other,
-- also where it returns early because no entry starts at the offset or later.
pub clear_latest_lem :
    (disk : Disk) (l : Cache) (offset : ℤ)
    → IsOrdered l
    → (clear_latest disk l offset).0.epoch_offsets ≡ keep (is_below offset) l.epoch_offsets
unfolding clear_latest
clear_latest_lem disk l offset h = elim (Bool-cases (ltb_ℤ (latest_offset l) offset)) [
  | inl early ↦
      rw (early, clear_latest) (sym (keep_all_list offset l.epoch_offsets (ground arith) h.0))
  | inr late ↦ rw (late, clear_latest) (flush_entries disk _)
]

pub clear_latest-IsOrdered :
    (disk : Disk) (l : Cache) (offset : ℤ) → IsOrdered l → IsOrdered (clear_latest disk l offset).0
clear_latest-IsOrdered disk l offset h =
    rw (clear_latest_lem disk l offset h) (keep-IsOrderedEntries offset l.epoch_offsets h)

-- The entries of the cache around the last one that starts below the offset.
pub record Split (l : Cache) (offset : ℤ) (e : EpochOffset) (after : List EpochOffset)
    : Type 0 where
  pub before : List EpochOffset
  pub entries : l.epoch_offsets ≡ before ++ e ∷ after
  pub below : e.start_offset <ℤ offset
  pub above : (after ≡ []) ⊎ (offset ≤ℤ earliest_of after)

middle_le :
    (b : EpochOffset) (bs : List EpochOffset) (e : EpochOffset) (after : List EpochOffset)
    → IsOrderedList (b ∷ (bs ++ e ∷ after))
    → b.start_offset ≤ℤ e.start_offset
middle_le b [] e after h = h.0.1
middle_le b (c ∷ cs) e after h = omega (arith, middle_le c cs e after h.1)

keep-after :
    (offset : ℤ) (after : List EpochOffset)
    → IsOrderedList after
    → (after ≡ []) ⊎ (offset ≤ℤ earliest_of after)
    → keep (is_below offset) after ≡ []
keep-after offset [] h a = refl
keep-after offset (f ∷ fs) h (inl e) = cc
keep-after offset (f ∷ fs) h (inr le) = keep_none offset f fs le h

IsOrderedList-tail :
    (e : EpochOffset) (es : List EpochOffset) → IsOrderedList (e ∷ es) → IsOrderedList es
IsOrderedList-tail e es h = h.1

keep-split :
    (offset : ℤ) (bs : List EpochOffset) (e : EpochOffset) (after : List EpochOffset)
    → IsOrderedList (bs ++ e ∷ after)
    → e.start_offset <ℤ offset
    → (after ≡ []) ⊎ (offset ≤ℤ earliest_of after)
    → keep (is_below offset) (bs ++ e ∷ after) ≡ bs ++ e ∷ []
keep-split offset [] e after h lt a =
    keep_hit (is_below offset) e after (lt→ltb _ _ lt) ∙ ap (◌∷◌ e) (keep-after offset after h.1 a)
keep-split offset (b ∷ bs) e after h lt a =
    keep_hit (is_below offset) b (bs ++ e ∷ after)
      (lt→ltb _ _ (omega (arith, middle_le b bs e after h)))
    ∙ ap (◌∷◌ b) (keep-split offset bs e after h.1 lt a)

drop-split :
    (bs : List EpochOffset) (e : EpochOffset) (after : List EpochOffset)
    → drop (length (bs ++ e ∷ [])) (bs ++ e ∷ after) ≡ after
drop-split [] e after = refl
drop-split (b ∷ bs) e after = drop-split bs e after

-- The entry that takes the place of those removed.
abbrev pub moved : EpochOffset → ℤ → EpochOffset
moved e offset = record { leader_epoch = e.leader_epoch; start_offset = offset }

abbrev after_clear : EpochOffset → ℤ → List EpochOffset → List EpochOffset
after_clear e offset after =
    if ltb_ℤ offset (earliest_of after) || length after == 0
    then after ++ moved e offset ∷ []
    else after

clear_below_cons :
    (disk : Disk) (l : Cache) (offset : ℤ) (x : EpochOffset) (xs : List EpochOffset)
    (e : EpochOffset) (after : List EpochOffset)
    → drop (length (x ∷ xs)) l.epoch_offsets ≡ after
    → last_of x xs ≡ e
    → (clear_below disk l offset (x ∷ xs)).0.epoch_offsets ≡ after_clear e offset after
unfolding clear_below
clear_below_cons disk l offset x xs e after r q = rw (← r, ← q) (ground arith)

clear_below_lem :
    (disk : Disk) (l : Cache) (offset : ℤ) (bs : List EpochOffset) (e : EpochOffset)
    (after : List EpochOffset)
    → l.epoch_offsets ≡ bs ++ e ∷ after
    → (clear_below disk l offset (bs ++ e ∷ [])).0.epoch_offsets ≡ after_clear e offset after
clear_below_lem disk l offset [] e after p =
    clear_below_cons disk l offset e [] e after (ap (drop 1) p) refl
clear_below_lem disk l offset (b ∷ bs) e after p =
    clear_below_cons disk l offset b (bs ++ e ∷ []) e after
      (ap (drop (length (b ∷ (bs ++ e ∷ [])))) p ∙ drop-split bs e after) (last_of-append b bs e [])

earliest_le :
    (bs : List EpochOffset) (e : EpochOffset) (after : List EpochOffset)
    → IsOrderedList (bs ++ e ∷ after)
    → earliest_of (bs ++ e ∷ after) ≤ℤ e.start_offset
earliest_le [] e after h = omega arith
earliest_le (b ∷ bs) e after h = middle_le b bs e after h

clear_earliest_entries :
    (disk : Disk) (l : Cache) (offset : ℤ) {e : EpochOffset} {after : List EpochOffset}
    → IsOrdered l
    → Split l offset e after
    → (clear_earliest disk l offset).0.epoch_offsets ≡ after_clear e offset after
unfolding clear_earliest
clear_earliest_entries disk l offset {e} {after} h s =
    let h' = subst IsOrderedEntries s.entries h in
    let first =
      subst (λ es. earliest_of es ≤ℤ e.start_offset) (sym s.entries)
        (earliest_le s.before e after h'.0) in
    let late = lt→not_leb_ℤ offset (earliest_of l.epoch_offsets) (omega (arith, first, s.below)) in
    let found =
      ap (keep (is_below offset)) s.entries
      ∙ keep-split offset s.before e after h'.0 s.below s.above in
    rw (late, clear_earliest) (rw found (clear_below_lem disk l offset s.before e after s.entries))

pub IsOrderedEntries-suffix :
    (bs es : List EpochOffset) → IsOrderedEntries (bs ++ es) → IsOrderedEntries es
IsOrderedEntries-suffix [] es h = h
IsOrderedEntries-suffix (b ∷ bs) es h = IsOrderedEntries-suffix bs es (h.0.1, h.1.1)

latest_epoch-suffix :
    (bs : List EpochOffset) (e : EpochOffset) (after : List EpochOffset)
    → latest_epoch_of (bs ++ e ∷ after) ≡ (last_of e after).leader_epoch
latest_epoch-suffix [] e after = refl
latest_epoch-suffix (b ∷ bs) e after = ap (λ x. x.leader_epoch) (last_of-append b bs e after)

after_clear_sound :
    (e : EpochOffset) (offset : ℤ) (after : List EpochOffset)
    → IsOrderedEntries (e ∷ after)
    → (after ≡ []) ⊎ (offset ≡ earliest_of after)
    → IsOrderedEntries (after_clear e offset after)
      × (earliest_of (after_clear e offset after) ≡ offset)
      × (latest_epoch_of (after_clear e offset after) ≡ (last_of e after).leader_epoch)
after_clear_sound e offset [] h a = ground (arith, h)
after_clear_sound e offset (f ∷ fs) h (inl p) = cc
after_clear_sound e offset (f ∷ fs) h (inr p) =
    rw (le→not_ltb_ℤ offset f.start_offset (rw p (omega arith)), suc_test (length fs))
      ((h.0.1, h.1.1), sym p, refl)

-- Where the offset is the start of an entry, or lies after every entry, `ClearEarliest` leaves an
-- ordered cache that starts at the offset and still ends in the latest epoch.
pub clear_earliest_sound :
    (disk : Disk) (l : Cache) (offset : ℤ) {e : EpochOffset} {after : List EpochOffset}
    → IsOrdered l
    → Split l offset e after
    → (after ≡ []) ⊎ (offset ≡ earliest_of after)
    → let cleared = (clear_earliest disk l offset).0 in
      IsOrdered cleared
      × (earliest_offset cleared ≡ offset)
      × (latest_epoch cleared ≡ latest_epoch l)
unfolding earliest_offset latest_epoch
clear_earliest_sound disk l offset {e} {after} h s a =
    let h' = IsOrderedEntries-suffix s.before _ (subst IsOrderedEntries s.entries h) in
    rw (clear_earliest_entries disk l offset h s, s.entries, latest_epoch-suffix s.before e after)
      (after_clear_sound e offset after h' a)

epoch_lt :
    (e : EpochOffset) (f : EpochOffset) (fs : List EpochOffset)
    → IsOrderedList (e ∷ f ∷ fs)
    → e.leader_epoch < (last_of f fs).leader_epoch
epoch_lt e f [] h = h.0.0
epoch_lt e f (g ∷ fs) h = omega (arith, epoch_lt f g fs h.1, h.0.0)

ordered_epoch_lt :
    (f : EpochOffset) (fs : List EpochOffset) (g : EpochOffset)
    → IsOrderedList (f ∷ (fs ++ g ∷ []))
    → f.leader_epoch < g.leader_epoch
ordered_epoch_lt f [] g h = h.0.0
ordered_epoch_lt f (d ∷ fs) g h = omega (arith, ordered_epoch_lt d fs g h.1, h.0.0)

after_clear_gap :
    (e : EpochOffset) (offset : ℤ) (after : List EpochOffset)
    → IsOrderedEntries (e ∷ after)
    → after ≢ []
    → offset <ℤ earliest_of after
    → (latest_epoch_of (after_clear e offset after) ≡ e.leader_epoch)
      × (latest_epoch_of (after_clear e offset after) < (last_of e after).leader_epoch)
      × (¬ IsOrderedEntries (after_clear e offset after))
after_clear_gap e offset [] h ne lt = absurd (ne refl)
after_clear_gap e offset (f ∷ fs) h ne lt =
    let back = ap (λ (x : EpochOffset). x.leader_epoch) (last_of-append f fs (moved e offset) []) in
    rw (lt→ltb_ℤ offset f.start_offset lt) (
      back,
      omega (arith, back, epoch_lt e f fs h.0),
      λ o. absurd (omega (arith, ordered_epoch_lt f fs (moved e offset) o.0, h.0.0.0)),
    )

-- Where the offset lies between the starts of two entries, the shortened entry goes to the wrong
-- end: the latest epoch of the cache falls back to that entry's older one, and the cache is no
-- longer ordered.
pub clear_earliest_gap :
    (disk : Disk) (l : Cache) (offset : ℤ) {e : EpochOffset} {after : List EpochOffset}
    → IsOrdered l
    → Split l offset e after
    → after ≢ []
    → offset <ℤ earliest_of after
    → let cleared = (clear_earliest disk l offset).0 in
      (latest_epoch cleared ≡ e.leader_epoch)
      × (latest_epoch cleared < latest_epoch l)
      × (¬ IsOrdered cleared)
unfolding latest_epoch
clear_earliest_gap disk l offset {e} {after} h s ne lt =
    let h' = IsOrderedEntries-suffix s.before _ (subst IsOrderedEntries s.entries h) in
    rw (clear_earliest_entries disk l offset h s, s.entries, latest_epoch-suffix s.before e after)
      (after_clear_gap e offset after h' ne lt)
