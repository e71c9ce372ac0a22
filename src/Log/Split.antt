-- ===== src/Log/Split.antt =====
-- A new active segment after a well-formed log.
use liftbridge.Common.{
  ℕ, ◌≡◌, ◌≢◌, refl, sym, ap, ◌∙◌, inl, inr, ℤ, pos, ◌+ℤ◌, ◌≤ℤ◌, ◌<ℤ◌, +ℤ_parts, eqb_ℤ, false, List,
  [], ◌∷◌, ◌++◌, append-nil, arith, Bool-cases,
}
use liftbridge.Segment.{Record, Segment, new_segment, next_offset, seal}
use liftbridge.Segment.Write.{
  IsValid, Rising, end_of, end_of-le, new_segment-IsValid, next_offset-end_of,
}
use liftbridge.Log.{Log, segments, newest_offset, split}
use liftbridge.Log.Order.{
  view, view-append, chain_end-snoc, Chain-append, Chain-append_left, Chain-append_right,
  IsValidLog, newest_offset-next, next_offset-le,
}

end_of-lt : (lo : ℤ) (rs : List Record) → Rising lo rs → rs ≢ [] → lo <ℤ end_of lo rs
end_of-lt lo [] h ne = absurd (ne refl)
end_of-lt lo (r ∷ rs) h ne =
    omega (arith, h.0, end_of-le (r.offset +ℤ pos 1) rs h.1, +ℤ_parts r.offset (pos 1))

seal-IsValid : (s : Segment) → IsValid s → IsValid (seal s)
unfolding seal
seal-IsValid s v = elim (Bool-cases s.sealed) [
  | inl done_before ↦ simp done_before v
  | inr open_ ↦ simp open_ (record {
    base = v.base;
    rising = v.rising;
    bounds = v.bounds;
    stamped = v.stamped;
    started = v.started;
  })
]

seal_same :
    (s : Segment)
    → ((seal s).records ≡ s.records)
      × ((seal s).base_offset ≡ s.base_offset)
      × (next_offset (seal s) ≡ next_offset s)
unfolding seal next_offset
seal_same s = ground arith

next_offset-new : (base : ℤ) (max : ℕ) → next_offset (new_segment base max) ≡ base
unfolding next_offset new_segment
next_offset-new base max = refl

pub view-segments : (l : Log) → view (segments l) ≡ view l.older ++ l.active.records
view-segments l =
    view-append l.older (l.active ∷ []) ∙ ap (◌++◌ (view l.older)) (append-nil l.active.records)

-- The active segment of a well-formed log.
pub active-IsValid : (l : Log) → IsValidLog l → IsValid l.active
active-IsValid l v = (Chain-append_right (pos 0) l.older (l.active ∷ []) v.chain).1

pub split-newest : (l : Log) → newest_offset (split l) +ℤ pos 1 ≡ newest_offset l +ℤ pos 1
split-newest l =
    newest_offset-next (split l)
    ∙ (unfold split in next_offset-new (newest_offset l +ℤ pos 1) l.max_segment_bytes)

pub split-IsValidLog : (l : Log) → IsValidLog l → IsValidLog (split l)
unfolding split new_segment
split-IsValidLog l v =
    let a = Chain-append_right (pos 0) l.older (l.active ∷ []) v.chain in
    let e = seal_same l.active in
    let next = newest_offset-next l in
    let end = chain_end-snoc (pos 0) l.older (seal l.active) ∙ (e.2 ∙ sym next) in
    let base : pos 0 ≤ℤ newest_offset l +ℤ pos 1 =
      rw next (omega (arith, a.1.base, next_offset-le l.active a.1)) in
    record {
      chain =
          Chain-append (pos 0) (l.older ++ seal l.active ∷ []) _
            (Chain-append (pos 0) l.older (seal l.active ∷ [])
              (Chain-append_left (pos 0) l.older (l.active ∷ []) v.chain)
              (rw e.1 a.0, seal-IsValid l.active a.1, tt))
            (rw end (omega arith), new_segment-IsValid _ l.max_segment_bytes base, tt);
      open_active = unfold new_segment in refl;
    }

pub split-view : (l : Log) → view (segments (split l)) ≡ view (segments l)
unfolding split new_segment
split-view l = simp (view-append, append-nil, (seal_same l.active).0)

pub split-hw : (l : Log) → (split l).hw ≡ l.hw
unfolding split
split-hw l = refl

pub not_same_file :
    (l : Log)
    → IsValidLog l
    → l.active.records ≢ []
    → eqb_ℤ (newest_offset l +ℤ pos 1) l.active.base_offset ≡ false
not_same_file l v ne =
    let a = active-IsValid l v in
    let beyond = end_of-lt l.active.base_offset l.active.records a.rising ne in
    rw (newest_offset-next l, next_offset-end_of l.active a) (ground (arith, beyond))
