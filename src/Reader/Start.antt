-- ===== src/Reader/Start.antt =====
-- Where a reader of committed messages starts, and where its limit is.
use liftbridge.Common.{
  ℕ, ◌+◌, ◌≤◌, ◌≡◌, refl, sym, ap, subst, ◌∙◌, ◌⊎◌, inl, inr, ℤ, pos, minus_one, ◌+ℤ◌, ◌≤ℤ◌, ◌<ℤ◌,
  leb_ℤ, ltb_ℤ, eqb_ℤ, +ℤ_parts, Bool, true, false, List, [], ◌∷◌, Option, none, some, arith,
  get_elem?, Bool-cases, All,
}
use liftbridge.Common.Search.{first_where, get_elem?-index_where}
use liftbridge.Segment.{Record, Segment, next_offset, find_entry}
use liftbridge.Segment.Write.{IsValid, Rising, end_of, end_of-le, next_offset-end_of}
use liftbridge.Segment.Find.{find_entry-first_where}
use liftbridge.Log.{Log, segments}
use liftbridge.Log.Order.{Chain}
use liftbridge.Log.Cut.{find_segment_index-index_where}
use liftbridge.Log.Timestamp.Earliest.{HasRecords}
use liftbridge.Reader.{
  Result, ok, error, Place, Committed, find_segment, end_in, end_of_hw, get_hw_pos, start_in,
  not_nil, place_in, find_place, started, limited, new_reader_committed, held,
}
use liftbridge.Reader.Within.{Below, AtMost, Fits, Grows, Keeps, held-le}

-- The records lie one behind the other, up to the end of the file.
abbrev pub Laid : ℕ → List Record → ℕ → Type 0
Laid at [] end = at ≤ end
Laid at (r ∷ rs) end = (at ≤ r.position) × Laid (r.position + r.size) rs end

abbrev pub IsLaid : Segment → Type 0
IsLaid s = Laid 0 s.records s.position

-- Only the last segment may be empty.
abbrev pub OlderFilled : List Segment → Type 0
OlderFilled [] = Unit
OlderFilled (s ∷ []) = Unit
OlderFilled (s ∷ t ∷ ss) = HasRecords s × OlderFilled (t ∷ ss)

-- A log as its readers need it.
pub record IsReadable (l : Log) : Type 0 where
  pub chain : Chain (pos 0) (segments l)
  pub filled : OlderFilled (segments l)
  pub laid : All IsLaid (segments l)

abbrev pub reaches : ℤ → Record → Bool
reaches offset r = leb_ℤ offset r.offset

abbrev pub ends_after : ℤ → Segment → Bool
ends_after offset s = ltb_ℤ offset (next_offset s)

record_inside :
    (hw : ℤ) (at end : ℕ) (rs : List Record) (y : Record)
    → Laid at rs end
    → first_where (reaches hw) rs ≡ some y
    → (at ≤ y.position) × (y.position + y.size ≤ end)
record_inside hw at end [] y l h = cc
record_inside hw at end (r ∷ rs) y l h = elim (Bool-cases (reaches hw r)) [
  | inl first ↦
      let e : some r ≡ some y = rw (first, first_where) at h in
      let same : r ≡ y = cc in rw (← same) (l.0, ends_behind (r.position + r.size) end rs l.1)
  | inr later ↦
      let rest =
        record_inside hw (r.position + r.size) end rs y l.1 (rw (later, first_where) at h) in
      (omega (arith, l.0, rest.0), rest.1)
]
  where
    ends_behind : (a b : ℕ) (xs : List Record) → Laid a xs b → a ≤ b
    ends_behind a b [] k = k
    ends_behind a b (x ∷ xs) k =
        let rest = ends_behind (x.position + x.size) b xs k.1 in omega (arith, rest, k.0)

-- In a segment the entry of an offset that is not higher starts before the other one ends.
entries_ordered :
    (offset hw : ℤ) (at end : ℕ) (rs : List Record) (x y : Record)
    → Laid at rs end
    → offset ≤ℤ hw
    → first_where (reaches offset) rs ≡ some x
    → first_where (reaches hw) rs ≡ some y
    → x.position ≤ y.position + y.size
entries_ordered offset hw at end [] x y l le h k = cc
entries_ordered offset hw at end (r ∷ rs) x y l le h k = elim (Bool-cases (reaches offset r)) [
  | inl first ↦
      let e : some r ≡ some x = rw (first, first_where) at h in
      let same : r ≡ x = cc in
      elim (Bool-cases (reaches hw r)) [
        | inl also ↦
            let e2 : some r ≡ some y = rw (also, first_where) at k in
            let same2 : r ≡ y = cc in rw (← same, ← same2) (omega arith)
        | inr later ↦
            let rest =
              record_inside hw (r.position + r.size) end rs y l.1 (rw (later, first_where) at k) in
            rw (← same) (omega (arith, rest.0))
      ]
  | inr later ↦
      let later2 : reaches hw r ≡ false = ground (arith, later, le) in
      entries_ordered offset hw (r.position + r.size) end rs x y l.1 le
        (rw (later, first_where) at h) (rw (later2, first_where) at k)
]

next_offset-lt : (s : Segment) → HasRecords s → IsValid s → s.base_offset <ℤ next_offset s
next_offset-lt s (r, rs, e) v =
    let rises : Rising s.base_offset (r ∷ rs) = subst (Rising s.base_offset) e v.rising in
    let last : next_offset s ≡ end_of (r.offset +ℤ pos 1) rs =
      next_offset-end_of s v ∙ ap (end_of s.base_offset) e in
    rw last
      (omega (arith, rises.0, +ℤ_parts r.offset (pos 1), end_of-le (r.offset +ℤ pos 1) rs rises.1))

filled_front :
    (hw : ℤ) (x : Segment) (xs : List Segment) (t : Segment)
    → OlderFilled (x ∷ xs)
    → first_where (ends_after hw) xs ≡ some t
    → HasRecords x × OlderFilled xs
filled_front hw x [] t f h = cc
filled_front hw x (y ∷ ys) t f h = f

-- A segment with records in front of one that is held.
later_base :
    (lo : ℤ) (x : Segment) (xs : List Segment) (t : Segment)
    → Chain lo (x ∷ xs)
    → HasRecords x
    → held xs t.base_offset ≡ some t
    → (x.base_offset <ℤ t.base_offset) × (held (x ∷ xs) t.base_offset ≡ some t)
unfolding held
later_base lo x xs t c h k =
    let lt = next_offset-lt x h c.1 in
    let le = held-le (next_offset x) t.base_offset xs t c.2 k in
    let before : x.base_offset <ℤ t.base_offset = omega (arith, lt, le) in
    let other : eqb_ℤ x.base_offset t.base_offset ≡ false = ground (arith, before) in
    (before, rw (other, held) k)

-- The segment of an offset that is not higher is the same one or one before it; the segment is the
-- one that is held at its base offset.
record InOrder (ss : List Segment) (s t : Segment) : Type 0 where
  holds : held ss t.base_offset ≡ some t
  valid : IsValid t
  laid : IsLaid t
  ordered : (s.base_offset <ℤ t.base_offset) ⊎ (s ≡ t)

segments_ordered :
    (offset hw lo : ℤ) (ss : List Segment) (s t : Segment)
    → Chain lo ss
    → OlderFilled ss
    → All IsLaid ss
    → offset ≤ℤ hw
    → first_where (ends_after offset) ss ≡ some s
    → first_where (ends_after hw) ss ≡ some t
    → InOrder ss s t
unfolding held
segments_ordered offset hw lo [] s t c f l le h k = cc
segments_ordered offset hw lo (x ∷ xs) s t c f l le h k = elim (Bool-cases (ends_after hw x)) [
  | inl here ↦
      let e : some x ≡ some t = rw (here, first_where) at k in
      let same : x ≡ t = cc in
      let also : ends_after offset x ≡ true = ground (arith, here, le) in
      let e2 : some x ≡ some s = rw (also, first_where) at h in
      let same2 : x ≡ s = cc in
      let self : eqb_ℤ x.base_offset x.base_offset ≡ true = ground arith in
      rw (← same, ← same2)
        (record { holds = (rw (self, held) refl); valid = c.1; laid = l.0; ordered = inr refl })
  | inr later ↦
      let found : first_where (ends_after hw) xs ≡ some t = rw (later, first_where) at k in
      let full = filled_front hw x xs t f found in
      elim (Bool-cases (ends_after offset x)) [
        | inl here ↦
            let e : some x ≡ some s = rw (here, first_where) at h in
            let same : x ≡ s = cc in
            let rest =
              segments_ordered hw hw (next_offset x) xs t t c.2 full.1 l.1 (omega arith) found
                found in
            let at = later_base lo x xs t c full.0 rest.holds in
            rw (← same)
              (record { holds = at.1; valid = rest.valid; laid = rest.laid; ordered = inl at.0 })
        | inr not_here ↦
            let rest =
              segments_ordered offset hw (next_offset x) xs s t c.2 full.1 l.1 le
                (rw (not_here, first_where) at h) found in
            let at = later_base lo x xs t c full.0 rest.holds in
            record { holds = at.1; valid = rest.valid; laid = rest.laid; ordered = rest.ordered }
      ]
]

pub find_segment-first_where :
    (offset : ℤ) (ss : List Segment)
    → Chain (pos 0) ss
    → find_segment ss offset ≡ first_where (ends_after offset) ss
unfolding find_segment
find_segment-first_where offset ss c =
    ap (get_elem? ss) (find_segment_index-index_where offset (pos 0) ss c)
    ∙ get_elem?-index_where (ends_after offset) ss

end_in-ok :
    (s : Segment) (o : Option Record) (q : Place)
    → end_in s o ≡ ok q
    → (y : Record) × (o ≡ some y) × (q ≡ record { base = s.base_offset; at = y.position + y.size })
unfolding end_in
end_in-ok s none q h = cc
end_in-ok s (some y) q h = (y, refl, cc)

-- What the place of the high watermark is.
end_of_hw-ok :
    (hw : ℤ) (o : Option Segment) (q : Place)
    → end_of_hw hw o ≡ ok q
    → (t : Segment) × (y : Record) × (o ≡ some t)
      × (find_entry t hw ≡ some y)
      × (q ≡ record { base = t.base_offset; at = y.position + y.size })
unfolding end_of_hw
end_of_hw-ok hw none q h = cc
end_of_hw-ok hw (some t) q h =
    let (y, found, e) = end_in-ok t (find_entry t hw) q h in (t, y, refl, found, e)

pub get_hw_pos-ok :
    (ss : List Segment) (hw : ℤ) (q : Place)
    → get_hw_pos ss hw ≡ ok q
    → (t : Segment) × (y : Record) × (find_segment ss hw ≡ some t)
      × (find_entry t hw ≡ some y)
      × (q ≡ record { base = t.base_offset; at = y.position + y.size })
unfolding get_hw_pos
get_hw_pos-ok ss hw q h = end_of_hw-ok hw (find_segment ss hw) q h

start_in-ok :
    (s : Segment) (o : Option Record) (p : Place)
    → not_nil (start_in s o) ≡ ok (some p)
    → (x : Record) × (o ≡ some x) × (p ≡ record { base = s.base_offset; at = x.position })
unfolding start_in not_nil
start_in-ok s none p h = cc
start_in-ok s (some x) p h = (x, refl, cc)

-- What the place of an offset is.
abbrev StartsIn : ℤ → Segment → Place → Type 0
StartsIn offset s p =
    (p ≡ record { base = s.base_offset; at = 0 })
    ⊎ ((x : Record) × (find_entry s offset ≡ some x)
        × (p ≡ record { base = s.base_offset; at = x.position }))

place_in-ok :
    (offset : ℤ) (o : Option Segment) (p : Place)
    → place_in offset o ≡ ok (some p)
    → (s : Segment) × (o ≡ some s) × StartsIn offset s p
unfolding place_in
place_in-ok offset none p h = cc
place_in-ok offset (some s) p h = elim (Bool-cases (leb_ℤ s.base_offset offset)) [
  | inr before ↦
      let e : ok (some (record { base = s.base_offset; at = 0 })) ≡ ok (some p) = rw before at h in
      (s, refl, inl cc)
  | inl inside ↦
      let (x, found, e) = start_in-ok s (find_entry s offset) p (rw inside at h) in
      (s, refl, inr (x, found, e))
]

started-ok :
    (hw : ℤ) (limit : Option Place) (o : Result (Option Place)) (r : Committed) (p : Place)
    → started hw limit o ≡ ok r
    → r.next ≡ some p
    → (o ≡ ok (some p)) × (r.limit ≡ limit) × (r.hw ≡ hw)
unfolding started
started-ok hw limit (error e) r p h at = cc
started-ok hw limit (ok none) r p h at = cc
started-ok hw limit (ok (some p')) r p h at =
    let made : record { next = some p'; limit = limit; hw = hw } ≡ r = cc in
    (ap ok (ap (λ c. c.next) made ∙ at), sym (ap (λ c. c.limit) made), sym (ap (λ c. c.hw) made))

entry_Below :
    (offset hw : ℤ) (s t : Segment) (y : Record) (p : Place)
    → offset ≤ℤ hw
    → StartsIn offset s p
    → find_entry t hw ≡ some y
    → IsValid t
    → IsLaid t
    → (s.base_offset <ℤ t.base_offset) ⊎ (s ≡ t)
    → Below p (record { base = t.base_offset; at = y.position + y.size })
entry_Below offset hw s t y p le (inl e) found v l (inl lt) = rw e (inl lt)
entry_Below offset hw s t y p le (inr (x, at, e)) found v l (inl lt) = rw e (inl lt)
entry_Below offset hw s t y p le (inl e) found v l (inr same) =
    rw (e, same) (inr (refl, omega arith))
entry_Below offset hw s t y p le (inr (x, at, e)) found v l (inr same) =
    let first =
      sym (find_entry-first_where t offset v) ∙ subst (λ z. find_entry z offset ≡ some x) same at in
    let second = sym (find_entry-first_where t hw v) ∙ found in
    rw (e, same)
      (inr (refl, entries_ordered offset hw 0 t.position t.records x y l le first second))

-- A reader that is placed in a segment, with its limit at the record of the high watermark.
placed-Keeps :
    (l : Log) (offset : ℤ) (r : Committed) (p q : Place) (worlds : List Log) (s t : Segment)
    (y : Record)
    → IsReadable l
    → offset ≤ℤ l.hw
    → (r.next ≡ some p) × (r.limit ≡ some q) × (r.hw ≡ l.hw)
    → find_segment (segments l) offset ≡ some s
    → StartsIn offset s p
    → find_segment (segments l) l.hw ≡ some t
    → find_entry t l.hw ≡ some y
    → q ≡ record { base = t.base_offset; at = y.position + y.size }
    → Grows l.hw q worlds
    → Keeps l worlds r q
placed-Keeps l offset r p q worlds s t y v le (at, limit, hw) s_at starts t_at found e grows =
    let first = sym (find_segment-first_where offset (segments l) v.chain) ∙ s_at in
    let second = sym (find_segment-first_where l.hw (segments l) v.chain) ∙ t_at in
    let order =
      segments_ordered offset l.hw (pos 0) (segments l) s t v.chain v.filled v.laid le first
        second in
    let below =
      entry_Below offset l.hw s t y p le starts found order.valid order.laid order.ordered in
    let fits =
      record_inside l.hw 0 t.position t.records y order.laid
        (sym (find_entry-first_where t l.hw order.valid) ∙ found) in
    let same : eqb_ℤ l.hw l.hw ≡ true = ground arith in
    record {
      limit = limit;
      within = subst (λ o. AtMost o q) (sym at) (subst (Below p) (sym e) below);
      has = (
        v.chain,
        subst (λ z. Fits z (held (segments l) z.base)) (sym e)
            (subst (Fits (record { base = t.base_offset; at = y.position + y.size }))
              (sym order.holds) fits.1),
      );
      grows = subst (λ h. Grows h q (l ∷ worlds)) (sym hw) (rw (same, Grows) grows);
    }

-- A reader of committed messages from an offset that the high watermark has reached starts in front of
-- the end of the high watermark, in a log that has it there.
pub new_reader_committed-Keeps :
    (l : Log) (offset : ℤ) (r : Committed) (p q : Place) (worlds : List Log)
    → IsReadable l
    → pos 0 ≤ℤ offset
    → new_reader_committed l offset ≡ ok r
    → r.next ≡ some p
    → get_hw_pos (segments l) l.hw ≡ ok q
    → Grows l.hw q worlds
    → Keeps l worlds r q
unfolding new_reader_committed limited find_place get_hw_pos
new_reader_committed-Keeps l offset r p q worlds v low made at hw grows =
    elim (Bool-cases (ltb_ℤ l.hw offset)) [
      | inl waits ↦
          let e : ok (record { next = none; limit = none; hw = l.hw }) ≡ ok r = rw waits at made in
          let same : record { next = none; limit = none; hw = l.hw } ≡ r = cc in
          let nil : none ≡ some p = ap (λ (c : Committed). c.next) same ∙ at in cc
      | inr reached ↦
          let le : offset ≤ℤ l.hw = ground (arith, reached) in
          let set : eqb_ℤ l.hw minus_one ≡ false = ground (arith, le, low) in
          let (placed, limit, hw_is) =
            started-ok l.hw (some q) (place_in offset (find_segment (segments l) offset)) r p
              (rw (reached, set, hw) at made) at in
          let (s, s_at, starts) = place_in-ok offset (find_segment (segments l) offset) p placed in
          let (t, y, t_at, found, e) = end_of_hw-ok l.hw (find_segment (segments l) l.hw) q hw in
          placed-Keeps l offset r p q worlds s t y v le (at, limit, hw_is) s_at starts t_at found e
            grows
    ]

-- Where the limit is.
pub new_reader_committed-limit :
    (l : Log) (offset : ℤ) (r : Committed) (p q : Place)
    → pos 0 ≤ℤ offset
    → new_reader_committed l offset ≡ ok r
    → r.next ≡ some p
    → get_hw_pos (segments l) l.hw ≡ ok q
    → r.limit ≡ some q
unfolding new_reader_committed limited find_place get_hw_pos
new_reader_committed-limit l offset r p q low made at hw = elim (Bool-cases (ltb_ℤ l.hw offset)) [
  | inl waits ↦
      let e : ok (record { next = none; limit = none; hw = l.hw }) ≡ ok r = rw waits at made in
      let same : record { next = none; limit = none; hw = l.hw } ≡ r = cc in
      let nil : none ≡ some p = ap (λ (c : Committed). c.next) same ∙ at in cc
  | inr reached ↦
      let le : offset ≤ℤ l.hw = ground (arith, reached) in
      let set : eqb_ℤ l.hw minus_one ≡ false = ground (arith, le, low) in
      (started-ok l.hw (some q) (place_in offset (find_segment (segments l) offset)) r p
        (rw (reached, set, hw) at made) at).1
]
