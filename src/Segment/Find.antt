-- ===== src/Segment/Find.antt =====
-- The searches over a segment's index.
use liftbridge.Common.{
  ◌≡◌, ap, ◌∙◌, ℤ, pos, ◌+ℤ◌, ◌≤ℤ◌, leb_ℤ, le→leb_ℤ, +ℤ_parts, Bool, true, List, [], ◌∷◌, arith,
  All, get_elem?,
}
use liftbridge.Common.Search.{first_where, IsUpward, search-index_where, get_elem?-index_where}
use liftbridge.Segment.{Record, Segment, find_record, find_entry}
use liftbridge.Segment.Write.{Rising, IsValid}

pub find_record-first_where :
    (p : Record → Bool) (s : Segment)
    → IsUpward p s.records
    → find_record p s ≡ first_where p s.records
unfolding find_record
find_record-first_where p s up =
    ap (get_elem? s.records) (search-index_where p s.records up) ∙ get_elem?-index_where p s.records

offsets_rise :
    (offset lo : ℤ) (rs : List Record)
    → Rising lo rs
    → offset ≤ℤ lo
    → All (λ r. leb_ℤ offset r.offset ≡ true) rs
offsets_rise offset lo [] h le = tt
offsets_rise offset lo (r ∷ rs) h le = (
  le→leb_ℤ offset r.offset (omega (arith, h.0)),
  offsets_rise offset (r.offset +ℤ pos 1) rs h.1 (omega (arith, h.0, +ℤ_parts r.offset (pos 1))),
)

offsets-IsUpward :
    (offset lo : ℤ) (rs : List Record) → Rising lo rs → IsUpward (λ r. leb_ℤ offset r.offset) rs
offsets-IsUpward offset lo [] h = tt
offsets-IsUpward offset lo (r ∷ rs) h = (
  λ at.
      offsets_rise offset (r.offset +ℤ pos 1) rs h.1 (
        let le : offset ≤ℤ r.offset = ground arith in omega (arith, le, +ℤ_parts r.offset (pos 1))),
  offsets-IsUpward offset (r.offset +ℤ pos 1) rs h.1,
)

-- On a valid segment `findEntry` gives the first record at the offset or after it, and none exactly
-- if there is none.
pub find_entry-first_where :
    (s : Segment) (offset : ℤ)
    → IsValid s
    → find_entry s offset ≡ first_where (λ r. leb_ℤ offset r.offset) s.records
unfolding find_entry
find_entry-first_where s offset v =
    find_record-first_where _ s (offsets-IsUpward offset s.base_offset s.records v.rising)
