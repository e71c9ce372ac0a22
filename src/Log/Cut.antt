-- ===== src/Log/Cut.antt =====
-- The search for the segment that holds an offset, and what `Truncate` copies of it.
use liftbridge.Common.{
  ◌≡◌, refl, sym, ap, ◌∙◌, subst, inl, inr, ℤ, pos, ◌+ℤ◌, ◌≤ℤ◌, ◌<ℤ◌, +ℤ_parts, ltb_ℤ, lt→ltb_ℤ,
  le→not_ltb_ℤ, Bool, true, false, List, [], ◌∷◌, ◌++◌, append-nil, append_assoc, arith, Bool-cases,
  All, keep, keep_hit, keep_miss,
}
use liftbridge.Common.Search.{index_where, IsUpward, search-index_where}
use liftbridge.Segment.{Record, Segment, new_segment, next_offset, written, emptied, replace}
use liftbridge.Segment.Write.{
  IsValid, Rising, end_of, end_of-le, new_segment-IsValid, written-IsValid, next_offset-written,
  written_same, next_offset-end_of, reopen-IsValid, reopen_same,
}
use liftbridge.Log.{find_segment_index, copy_below, truncated_segment}
use liftbridge.Log.Order.{view, Chain, next_offset-le, view-Rising}

abbrev pub is_before : ℤ → Record → Bool
is_before offset r = ltb_ℤ r.offset offset

-- Records from an offset on are all dropped.
pub keep_none :
    (offset lo : ℤ) (rs : List Record)
    → Rising lo rs
    → offset ≤ℤ lo
    → keep (is_before offset) rs ≡ []
keep_none offset lo [] h le = refl
keep_none offset lo (r ∷ rs) h le =
    keep_miss (is_before offset) r rs (le→not_ltb_ℤ r.offset offset (omega (arith, h.0)))
    ∙ keep_none offset (r.offset +ℤ pos 1) rs h.1 (omega (arith, h.0, +ℤ_parts r.offset (pos 1)))

-- Records that end by an offset are all kept.
keep_all :
    (offset lo : ℤ) (rs : List Record)
    → Rising lo rs
    → end_of lo rs ≤ℤ offset
    → keep (is_before offset) rs ≡ rs
keep_all offset lo [] h le = refl
keep_all offset lo (r ∷ rs) h le =
    keep_hit (is_before offset) r rs (
      lt→ltb_ℤ r.offset offset
        (omega (arith, le, end_of-le (r.offset +ℤ pos 1) rs h.1, +ℤ_parts r.offset (pos 1))))
    ∙ ap (◌∷◌ r) (keep_all offset (r.offset +ℤ pos 1) rs h.1 le)

pub keep-append :
    (p : Record → Bool) (xs ys : List Record) → keep p (xs ++ ys) ≡ keep p xs ++ keep p ys
keep-append p [] ys = refl
keep-append p (x ∷ xs) ys = elim (Bool-cases (p x)) [
  | inl here ↦
      rw (keep_hit p x (xs ++ ys) here, keep_hit p x xs here) (ap (◌∷◌ x) (keep-append p xs ys))
  | inr away ↦ rw (keep_miss p x (xs ++ ys) away, keep_miss p x xs away) (keep-append p xs ys)
]

-- A copy of the records below the offset.
record IsCopy (offset : ℤ) (rs : List Record) (t u : Segment) : Type 0 where
  valid : IsValid u
  records : u.records ≡ t.records ++ keep (is_before offset) rs
  base : u.base_offset ≡ t.base_offset

copy_below-IsCopy :
    (offset : ℤ) (rs : List Record) (t : Segment)
    → IsValid t
    → Rising (next_offset t) rs
    → All (λ (r : Record). pos 0 <ℤ r.timestamp) rs
    → IsCopy offset rs t (copy_below offset rs t)
unfolding copy_below
copy_below-IsCopy offset [] t v h s = record {
  valid = v;
  records = sym (append-nil t.records);
  base = refl;
}
copy_below-IsCopy offset (r ∷ rs) t v h s = elim (Bool-cases (is_before offset r)) [
  | inl before ↦
      let w = written-IsValid t r.size r [] v (h.0, tt) (s.0, tt) in
      let same = written_same t r.size r [] in
      let next = next_offset-written t r.size r [] v w in
      let rest =
        copy_below-IsCopy offset rs (written t r.size r []) w
          (subst (λ lo. Rising lo rs) (sym next) h.1) s.1 in
      rw (before, copy_below)
        (record {
          valid = rest.valid;
          records =
              rest.records
              ∙ (ap (λ xs. xs ++ keep (is_before offset) rs) same.0
                  ∙ (append_assoc t.records (r ∷ []) (keep (is_before offset) rs)
                      ∙ ap (◌++◌ t.records) (sym (keep_hit (is_before offset) r rs before))));
          base = rest.base ∙ same.1;
        })
  | inr after ↦
      rw (after, copy_below)
        (record {
          valid = v;
          records =
              sym (append-nil t.records)
              ∙ ap (◌++◌ t.records) (
                  sym (
                    keep_miss (is_before offset) r rs after
                    ∙ keep_none offset (r.offset +ℤ pos 1) rs h.1 (
                        let le : offset ≤ℤ r.offset = ground (arith, after) in
                        omega (arith, le, +ℤ_parts r.offset (pos 1)))));
          base = refl;
        })
]

pub emptied-IsValid : (s : Segment) → IsValid s → IsValid (emptied s)
unfolding emptied
emptied-IsValid s v = new_segment-IsValid s.base_offset s.max_bytes v.base

pub emptied_same :
    (s : Segment)
    → ((emptied s).records ≡ [])
      × ((emptied s).base_offset ≡ s.base_offset)
      × (next_offset (emptied s) ≡ s.base_offset)
unfolding emptied new_segment next_offset
emptied_same s = (refl, refl, refl)

-- The segment that takes the place of the one that holds the offset.
pub truncated_segment_lem :
    (s : Segment) (offset : ℤ)
    → IsValid s
    → let t = truncated_segment s offset in
      IsValid t
      × (t.records ≡ keep (is_before offset) s.records)
      × (t.base_offset ≡ s.base_offset)
      × (t.closed ≡ false)
unfolding truncated_segment replace
truncated_segment_lem s offset v =
    let e = emptied_same s in
    let c =
      copy_below-IsCopy offset s.records (emptied s) (emptied-IsValid s v) (rw e.2 v.rising)
        v.stamped in
    let t = reopen_same (copy_below offset s.records (emptied s)) in
    (
      reopen-IsValid (copy_below offset s.records (emptied s)) c.valid,
      t.0 ∙ (c.records ∙ ap (λ xs. xs ++ keep (is_before offset) s.records) e.0),
      t.1 ∙ (c.base ∙ e.1),
      t.2,
    )

next_offsets_rise :
    (offset lo : ℤ) (ss : List Segment)
    → Chain lo ss
    → offset <ℤ lo
    → All (λ s. ltb_ℤ offset (next_offset s) ≡ true) ss
next_offsets_rise offset lo [] h lt = tt
next_offsets_rise offset lo (s ∷ ss) h lt =
    let after : offset <ℤ next_offset s = omega (arith, h.0, next_offset-le s h.1) in
    (lt→ltb_ℤ offset (next_offset s) after, next_offsets_rise offset (next_offset s) ss h.2 after)

next_offsets-IsUpward :
    (offset lo : ℤ) (ss : List Segment)
    → Chain lo ss
    → IsUpward (λ s. ltb_ℤ offset (next_offset s)) ss
next_offsets-IsUpward offset lo [] h = tt
next_offsets-IsUpward offset lo (s ∷ ss) h = (
  λ at. next_offsets_rise offset (next_offset s) ss h.2 (ground (arith, at)),
  next_offsets-IsUpward offset (next_offset s) ss h.2,
)

-- On a well-formed log the binary search over the segments is the search from the front.
pub find_segment_index-index_where :
    (offset lo : ℤ) (ss : List Segment)
    → Chain lo ss
    → find_segment_index ss offset ≡ index_where (λ s. ltb_ℤ offset (next_offset s)) ss
unfolding find_segment_index
find_segment_index-index_where offset lo ss h =
    search-index_where _ ss (next_offsets-IsUpward offset lo ss h)

-- Segments that end by the offset are kept whole.
pub keep_front :
    (offset lo : ℤ) (ss : List Segment)
    → Chain lo ss
    → All (λ s. ltb_ℤ offset (next_offset s) ≡ false) ss
    → keep (is_before offset) (view ss) ≡ view ss
keep_front offset lo [] h m = refl
keep_front offset lo (s ∷ ss) h m =
    keep-append _ s.records (view ss)
    ∙ (ap (λ xs. xs ++ keep (is_before offset) (view ss))
          (keep_all offset s.base_offset s.records h.1.rising (
            rw (next_offset-end_of s h.1) at
              (let le : next_offset s ≤ℤ offset = ground (arith, m.0) in le)))
        ∙ ap (◌++◌ s.records) (keep_front offset (next_offset s) ss h.2 m.1))

pub keep_back :
    (offset lo : ℤ) (ss : List Segment)
    → Chain lo ss
    → offset ≤ℤ lo
    → keep (is_before offset) (view ss) ≡ []
keep_back offset lo ss h le = keep_none offset lo (view ss) (view-Rising lo ss h) le
