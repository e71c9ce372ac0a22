-- ===== src/Epochs/Rebase.antt =====
-- `Rebase` onto a cache without a file, as the log does after a compaction.
use liftbridge.Common.{
  ℕ, zero, suc, subst, ◌<◌, ◌≡◌, refl, ap, ◌∙◌, ℤ, ◌≤ℤ◌, true, false, List, [], ◌∷◌, ◌++◌,
  append-nil, append_assoc, none, arith, leb_ℤ, lt→ltb, le→leb_ℤ, All, keep, drop, last_of-append,
}
use liftbridge.Common.Search.{IsUpward, search-index_where, drop-index_where}
use liftbridge.Epochs.{
  EpochOffset, Cache, Disk, flush, assign, assign_newer, rebase, latest_epoch, latest_offset,
  latest_epoch_of, latest_offset_of,
}
use liftbridge.Epochs.Order.{IsOrdered, IsOrderedList, Above}

-- The entries can be put behind those of the cache.
abbrev pub Follows : List EpochOffset → List EpochOffset → Type 0
Follows es [] = Unit {0}
Follows es (f ∷ fs) =
    (latest_epoch_of es < f.leader_epoch) × (latest_offset_of es ≤ℤ f.start_offset)

abbrev with_entries : Cache → List EpochOffset → Cache
with_entries l es = record l { epoch_offsets = es }

flush_no_file : (disk : Disk) (l : Cache) → l.file_backed ≡ false → flush disk l ≡ (l, none)
unfolding flush
flush_no_file disk l h = rw h

latest_epoch-snoc :
    (es : List EpochOffset) (e : EpochOffset) → latest_epoch_of (es ++ e ∷ []) ≡ e.leader_epoch
latest_epoch-snoc [] e = refl
latest_epoch-snoc (d ∷ es) e = ap (λ x. x.leader_epoch) (last_of-append d es e [])

latest_offset-snoc :
    (es : List EpochOffset) (e : EpochOffset) → latest_offset_of (es ++ e ∷ []) ≡ e.start_offset
latest_offset-snoc [] e = refl
latest_offset-snoc (d ∷ es) e = ap (λ x. x.start_offset) (last_of-append d es e [])

Follows-snoc :
    (es : List EpochOffset) (e : EpochOffset) (fs : List EpochOffset)
    → Above e fs
    → Follows (es ++ e ∷ []) fs
Follows-snoc es e [] h = tt
Follows-snoc es e (f ∷ fs) h = rw (latest_epoch-snoc es e, latest_offset-snoc es e) h

assign_taken :
    (disk : Disk) (l : Cache) (e : EpochOffset) (fs : List EpochOffset)
    → l.file_backed ≡ false
    → Follows l.epoch_offsets (e ∷ fs)
    → assign disk l e.leader_epoch e.start_offset
      ≡ (with_entries l (l.epoch_offsets ++ e ∷ []), none)
unfolding assign latest_epoch latest_offset
assign_taken disk l e fs h f =
    rw
      (
        lt→ltb (latest_epoch_of l.epoch_offsets) e.leader_epoch f.0,
        le→leb_ℤ (latest_offset_of l.epoch_offsets) e.start_offset f.1,
      )
      (flush_no_file disk (with_entries l (l.epoch_offsets ++ e ∷ [])) h)

assign_newer_all :
    (disk : Disk) (l : Cache) (es : List EpochOffset)
    → l.file_backed ≡ false
    → IsOrderedList es
    → Follows l.epoch_offsets es
    → assign_newer disk l es ≡ (with_entries l (l.epoch_offsets ++ es), none)
unfolding assign_newer latest_epoch
assign_newer_all disk l [] h o f = rw append-nil
assign_newer_all disk l (e ∷ es) h o f =
    let next = with_entries l (l.epoch_offsets ++ e ∷ []) in
    let rest = assign_newer_all disk next es h o.1 (Follows-snoc l.epoch_offsets e es o.0) in
    rw
      (
        lt→ltb (latest_epoch_of l.epoch_offsets) e.leader_epoch f.0,
        assign_taken disk l e es h f,
        assign_newer,
      )
      (rest ∙ ap (λ es'. (with_entries l es', none)) (append_assoc l.epoch_offsets (e ∷ []) es))

starts_rise :
    (offset : ℤ) (e : EpochOffset) (es : List EpochOffset)
    → IsOrderedList (e ∷ es)
    → offset ≤ℤ e.start_offset
    → All (λ f. leb_ℤ offset f.start_offset ≡ true) es
starts_rise offset e [] h le = tt
starts_rise offset e (f ∷ es) h le =
    (ground (arith, h.0.1), starts_rise offset f es h.1 (omega (arith, h.0.1)))

starts-IsUpward :
    (offset : ℤ) (es : List EpochOffset)
    → IsOrderedList es
    → IsUpward (λ e. leb_ℤ offset e.start_offset) es
starts-IsUpward offset [] h = tt
starts-IsUpward offset (e ∷ es) h =
    (λ at. starts_rise offset e es h (ground arith), starts-IsUpward offset es h.1)

drop-IsOrderedList : (n : ℕ) (es : List EpochOffset) → IsOrderedList es → IsOrderedList (drop n es)
drop-IsOrderedList zero es h = h
drop-IsOrderedList (suc n) [] h = h
drop-IsOrderedList (suc n) (e ∷ es) h = drop-IsOrderedList n es h.1

keep-IsOrderedList :
    (offset : ℤ) (es : List EpochOffset)
    → IsOrderedList es
    → IsOrderedList (keep (λ e. leb_ℤ offset e.start_offset) es)
keep-IsOrderedList offset es h =
    subst IsOrderedList (drop-index_where _ es (starts-IsUpward offset es h))
      (drop-IsOrderedList _ es h)

-- Rebasing a cache without a file cannot fail, and where the entries of the other cache from the
-- offset on come after those of this one, it puts exactly those behind them.
pub rebase_lem :
    (disk : Disk) (l from : Cache) (offset : ℤ)
    → l.file_backed ≡ false
    → IsOrdered from
    → let newer = keep (λ e. leb_ℤ offset e.start_offset) from.epoch_offsets in
      Follows l.epoch_offsets newer
      → rebase disk l from offset ≡ (record l { epoch_offsets = l.epoch_offsets ++ newer }, none)
unfolding rebase
rebase_lem disk l from offset h o f =
    let at =
      ap (λ i. drop i from.epoch_offsets)
        (search-index_where _ from.epoch_offsets (starts-IsUpward offset from.epoch_offsets o.0))
      ∙ drop-index_where _ from.epoch_offsets (starts-IsUpward offset from.epoch_offsets o.0) in
    rw (at, assign_newer_all disk l _ h (keep-IsOrderedList offset from.epoch_offsets o.0) f)
      (flush_no_file disk _ h)
