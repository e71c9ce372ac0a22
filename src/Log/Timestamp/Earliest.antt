-- ===== src/Log/Timestamp/Earliest.antt =====
-- The offset for a timestamp, in a log whose timestamps rise.
use liftbridge.Common.{
  ℕ, zero, suc, ◌-◌, ◌<◌, ◌≡◌, refl, sym, ap, subst, ◌∙◌, inl, inr, ℤ, ◌≤ℤ◌, ◌<ℤ◌, leb_ℤ, ltb_ℤ,
  le→leb_ℤ, lt→not_leb_ℤ, lt→ltb_ℤ, Bool, true, false, List, [], ◌∷◌, ◌++◌, Option, none, some,
  arith, ◌==◌, suc_test, if◌then◌else◌, length, get_elem?, All, Bool-cases,
}
use liftbridge.Common.Search.{holds_at, index_where, first_where, IsUpward, search-index_where}
use liftbridge.Segment.{Record, Segment, next_offset, find_entry_by_timestamp}
use liftbridge.Segment.Find.{find_record-first_where}
use liftbridge.Log.{Log, segments}
use liftbridge.Log.Order.{view}
use liftbridge.Log.Timestamp.{
  probe_loop, first_after, starts_after, probe, find_segment_index_by_timestamp, offset_of,
  next_entry, or_next, search_segments, offset_for_timestamp,
}
use liftbridge.Log.Timestamp.Probe.{probe_loop-search_all, probe_loop-fails}

-- Timestamps rise from a bound on.
abbrev pub Later : ℤ → List Record → Type 0
Later lo [] = Unit {0}
Later lo (r ∷ rs) = (lo <ℤ r.timestamp) × Later r.timestamp rs

abbrev pub HasRecords : Segment → Type 0
HasRecords s = (r : Record) × (rs : List Record) × (s.records ≡ r ∷ rs)

abbrev at_least : ℤ → Record → Bool
at_least t r = leb_ℤ t r.timestamp

-- The earliest offset whose timestamp is not below the given one, or the offset after the log.
abbrev pub earliest : ℤ → ℤ → List Record → ℤ
earliest end t rs = elim (first_where (λ (r : Record). leb_ℤ t r.timestamp) rs) [
  | none ↦ end
  | some r ↦ r.offset
]

Later-all :
    (t lo : ℤ) (rs : List Record) → Later lo rs → t ≤ℤ lo → All (λ r. at_least t r ≡ true) rs
Later-all t lo [] h le = tt
Later-all t lo (r ∷ rs) h le = (
  le→leb_ℤ t r.timestamp (omega (arith, h.0, le)),
  Later-all t r.timestamp rs h.1 (omega (arith, h.0, le)),
)

Later-IsUpward : (t lo : ℤ) (rs : List Record) → Later lo rs → IsUpward (at_least t) rs
Later-IsUpward t lo [] h = tt
Later-IsUpward t lo (r ∷ rs) h =
    (λ at. Later-all t r.timestamp rs h.1 (ground (arith, at)), Later-IsUpward t r.timestamp rs h.1)

Later-left : (lo : ℤ) (xs ys : List Record) → Later lo (xs ++ ys) → Later lo xs
Later-left lo [] ys h = tt
Later-left lo (x ∷ xs) ys h = (h.0, Later-left x.timestamp xs ys h.1)

Later-weaken : (lo lo' : ℤ) (rs : List Record) → lo ≤ℤ lo' → Later lo' rs → Later lo rs
Later-weaken lo lo' [] le h = tt
Later-weaken lo lo' (r ∷ rs) le h = (omega (arith, h.0, le), h.1)

Later-right : (lo : ℤ) (xs ys : List Record) → Later lo (xs ++ ys) → Later lo ys
Later-right lo [] ys h = h
Later-right lo (x ∷ xs) ys h =
    Later-weaken lo x.timestamp ys (omega (arith, h.0)) (Later-right x.timestamp xs ys h.1)

-- What comes before a record is earlier.
before :
    (lo : ℤ) (xs : List Record) (r : Record) (rs : List Record)
    → Later lo (xs ++ r ∷ rs)
    → All (λ (x : Record). x.timestamp <ℤ r.timestamp) xs
before lo [] r rs h = tt
before lo (x ∷ xs) r rs h =
    ((Later-right x.timestamp xs (r ∷ rs) h.1).0, before x.timestamp xs r rs h.1)

first_where-miss :
    (t u : ℤ) (xs ys : List Record)
    → All (λ (x : Record). x.timestamp <ℤ u) xs
    → u ≤ℤ t
    → first_where (at_least t) (xs ++ ys) ≡ first_where (at_least t) ys
first_where-miss t u [] ys h le = refl
first_where-miss t u (x ∷ xs) ys h le =
    let miss : at_least t x ≡ false = lt→not_leb_ℤ t x.timestamp (omega (arith, h.0, le)) in
    rw (miss, first_where) (first_where-miss t u xs ys h.1 le)

-- The first hit of a list is that of its front, if there is one.
or_else : Option Record → Option Record → Option Record
or_else none o = o
or_else (some r) o = some r

first_where-append :
    (t : ℤ) (xs ys : List Record)
    → first_where (at_least t) (xs ++ ys)
      ≡ or_else (first_where (at_least t) xs) (first_where (at_least t) ys)
unfolding or_else
first_where-append t [] ys = refl
first_where-append t (x ∷ xs) ys = elim (Bool-cases (at_least t x)) [
  | inl hit ↦ rw (hit, first_where) refl
  | inr miss ↦ rw (miss, first_where) (first_where-append t xs ys)
]

find_entry_by_timestamp-first_where :
    (t lo : ℤ) (s : Segment)
    → Later lo s.records
    → find_entry_by_timestamp s t ≡ first_where (at_least t) s.records
unfolding find_entry_by_timestamp
find_entry_by_timestamp-first_where t lo s h =
    find_record-first_where (at_least t) s (Later-IsUpward t lo s.records h)

-- The test of the search, on a segment with records.
abbrev after : ℤ → Segment → Bool
after t s = elim (starts_after t s) [ none ↦ true | some b ↦ b ]

starts_after-first :
    (t : ℤ) (s : Segment) (r : Record) (rs : List Record)
    → s.records ≡ r ∷ rs
    → starts_after t s ≡ some (ltb_ℤ t r.timestamp)
unfolding starts_after first_after
starts_after-first t s r rs e = rw e refl

after-first :
    (t : ℤ) (s : Segment) (r : Record) (rs : List Record)
    → s.records ≡ r ∷ rs
    → after t s ≡ ltb_ℤ t r.timestamp
after-first t s r rs e =
    ap (λ o. elim o [ none ↦ true | some b ↦ b ]) (starts_after-first t s r rs e)

starts_after-after : (t : ℤ) (s : Segment) → HasRecords s → starts_after t s ≡ some (after t s)
starts_after-after t s (r, rs, e) =
    starts_after-first t s r rs e ∙ ap some (sym (after-first t s r rs e))

probe-holds_at :
    (t : ℤ) (ss : List Segment) (m : ℕ)
    → All HasRecords ss
    → m < length ss
    → probe t (get_elem? ss m) ≡ some (holds_at (after t) ss m)
unfolding probe
probe-holds_at t [] m h lt = absurd (omega (arith, lt))
probe-holds_at t (s ∷ ss) zero h lt = starts_after-after t s h.0
probe-holds_at t (s ∷ ss) (suc m) h lt = probe-holds_at t ss m h.1 (omega (arith, lt))

after-All :
    (t lo : ℤ) (ss : List Segment)
    → All HasRecords ss
    → Later lo (view ss)
    → t ≤ℤ lo
    → All (λ s. after t s ≡ true) ss
after-All t lo [] h k le = tt
after-All t lo (s ∷ ss) ((r, rs, e), h) k le =
    let first : Later lo (r ∷ (rs ++ view ss)) = subst (λ xs. Later lo (xs ++ view ss)) e k in
    let here : ltb_ℤ t r.timestamp ≡ true = lt→ltb_ℤ t r.timestamp (omega (arith, first.0, le)) in
    (
      after-first t s r rs e ∙ here,
      after-All t r.timestamp ss h (Later-right r.timestamp rs (view ss) first.1)
          (omega (arith, first.0, le)),
    )

after-IsUpward :
    (t lo : ℤ) (ss : List Segment) → All HasRecords ss → Later lo (view ss) → IsUpward (after t) ss
after-IsUpward t lo [] h k = tt
after-IsUpward t lo (s ∷ ss) ((r, rs, e), h) k =
    let first : Later lo (r ∷ (rs ++ view ss)) = subst (λ xs. Later lo (xs ++ view ss)) e k in
    let rest = Later-right r.timestamp rs (view ss) first.1 in
    (
      λ at.
          let now : ltb_ℤ t r.timestamp ≡ true = sym (after-first t s r rs e) ∙ at in
          after-All t r.timestamp ss h rest (ground (arith, now)),
      after-IsUpward t r.timestamp ss h rest,
    )

find-index_where :
    (t lo : ℤ) (ss : List Segment)
    → All HasRecords ss
    → Later lo (view ss)
    → find_segment_index_by_timestamp ss t ≡ (index_where (after t) ss, false)
unfolding find_segment_index_by_timestamp
find-index_where t lo ss h k =
    probe_loop-search_all (length ss) (λ i. probe t (get_elem? ss i)) (holds_at (after t) ss)
      (λ m lt. probe-holds_at t ss m h lt)
    ∙ ap (λ i. (i, false)) (search-index_where (after t) ss (after-IsUpward t lo ss h k))

-- A segment that starts after the timestamp has its first record as the answer.
first_entry :
    (t lo : ℤ) (s : Segment) (ss : List Segment)
    → HasRecords s
    → Later lo (view (s ∷ ss))
    → after t s ≡ true
    → (r : Record) × (find_entry_by_timestamp s t ≡ some r)
      × (first_where (at_least t) (view (s ∷ ss)) ≡ some r)
first_entry t lo s ss (r, rs, e) k at =
    let now : ltb_ℤ t r.timestamp ≡ true = sym (after-first t s r rs e) ∙ at in
    let hit : at_least t r ≡ true = le→leb_ℤ t r.timestamp (ground (arith, now)) in
    (
      r,
      find_entry_by_timestamp-first_where t lo s (Later-left lo s.records (view ss) k)
          ∙ rw e (rw (hit, first_where) refl),
      rw e (rw (hit, first_where) refl),
    )

answer_else :
    (end t : ℤ) (next : Option Segment) (o later : Option Record)
    → next_entry end t next ≡ some (elim later [ none ↦ end | some r ↦ r.offset ])
    → or_next end t next o ≡ some (elim (or_else o later) [ none ↦ end | some r ↦ r.offset ])
unfolding or_next or_else
answer_else end t next none later h = h
answer_else end t next (some r) later h = refl

-- A segment that does not start after the timestamp: the answer is in it, or at the start of the next
-- one that does.
scan :
    (end t lo : ℤ) (s : Segment) (ss : List Segment)
    → All HasRecords (s ∷ ss)
    → Later lo (view (s ∷ ss))
    → let i = index_where (after t) ss in
      search_segments end t (get_elem? (s ∷ ss) i) (get_elem? ss i)
      ≡ some (earliest end t (view (s ∷ ss)))
unfolding search_segments next_entry offset_of index_where
scan end t lo s [] h k =
    let found = find_entry_by_timestamp-first_where t lo s (Later-left lo s.records [] k) in
    ap (or_next end t none) found
    ∙ (answer_else end t none (first_where (at_least t) s.records) none refl
        ∙ ap (λ o. some (elim o [ none ↦ end | some r ↦ r.offset ]))
            (sym (first_where-append t s.records [])))
scan end t lo s (x ∷ xs) h k = elim (Bool-cases (after t x)) [
  | inl later ↦
      let rest : Later lo (view (x ∷ xs)) = Later-right lo s.records (view (x ∷ xs)) k in
      let (r, entry, first) = first_entry t lo x xs h.1.0 rest later in
      let found = find_entry_by_timestamp-first_where t lo s (Later-left lo s.records _ k) in
      rw (later, index_where)
        (ap (or_next end t (some x)) found
          ∙ (answer_else end t (some x) (first_where (at_least t) s.records) (some r)
                (ap offset_of entry)
              ∙ ap (λ o. some (elim o [ none ↦ end | some q ↦ q.offset ]))
                  (ap (or_else (first_where (at_least t) s.records)) (sym first)
                    ∙ sym (first_where-append t s.records (view (x ∷ xs))))))
  | inr not_later ↦
      let (r, rs, e) = h.1.0 in
      let low : ltb_ℤ t r.timestamp ≡ false = sym (after-first t x r rs e) ∙ not_later in
      let early =
        before lo s.records r (rs ++ view xs)
          (subst (λ ys. Later lo (s.records ++ (ys ++ view xs))) e k) in
      rw (not_later, index_where)
        (scan end t lo x xs h.1 (Later-right lo s.records (view (x ∷ xs)) k)
          ∙ ap (λ o. some (elim o [ none ↦ end | some q ↦ q.offset ]))
              (sym (
                first_where-miss t r.timestamp s.records (view (x ∷ xs)) early
                  (ground (arith, low)))))
]

segment_before :
    (ss : List Segment) (i : ℕ)
    → (if suc i == 0 then get_elem? ss 0 else get_elem? ss (suc i - 1)) ≡ get_elem? ss i
segment_before ss i =
    let back : suc i - 1 ≡ i = omega arith in rw suc_test (ap (λ j. get_elem? ss j) back)

search_at :
    (end t lo : ℤ) (s : Segment) (ss : List Segment)
    → All HasRecords (s ∷ ss)
    → Later lo (view (s ∷ ss))
    → let i = index_where (after t) (s ∷ ss) in
      search_segments end t
        (if i == 0 then get_elem? (s ∷ ss) 0 else get_elem? (s ∷ ss) (i - 1))
        (get_elem? (s ∷ ss) i)
      ≡ some (earliest end t (view (s ∷ ss)))
unfolding search_segments or_next index_where
search_at end t lo s ss h k = elim (Bool-cases (after t s)) [
  | inl first ↦
      let (r, entry, hit) = first_entry t lo s ss h.0 k first in
      rw (first, index_where, entry, or_next)
        (ap (λ o. some (elim o [ none ↦ end | some q ↦ q.offset ])) (sym hit))
  | inr later ↦
      rw (later, index_where)
        (ap (λ o. search_segments end t o (get_elem? ss (index_where (after t) ss)))
            (segment_before (s ∷ ss) (index_where (after t) ss))
          ∙ scan end t lo s ss h k)
]

found_in :
    (end t lo : ℤ) (s : Segment) (ss : List Segment)
    → All HasRecords (s ∷ ss)
    → Later lo (view (s ∷ ss))
    → let at = find_segment_index_by_timestamp (s ∷ ss) t in
      (if at.1
        then none
        else search_segments end t
            (if at.0 == 0 then get_elem? (s ∷ ss) 0 else get_elem? (s ∷ ss) (at.0 - 1))
            (get_elem? (s ∷ ss) at.0))
      ≡ some (earliest end t (view (s ∷ ss)))
found_in end t lo s ss h k =
    subst
      (λ (at : ℕ × Bool).
        (if at.1
          then none
          else search_segments end t
              (if at.0 == 0 then get_elem? (s ∷ ss) 0 else get_elem? (s ∷ ss) (at.0 - 1))
              (get_elem? (s ∷ ss) at.0))
        ≡ some (earliest end t (view (s ∷ ss))))
      (sym (find-index_where t lo (s ∷ ss) h k)) (search_at end t lo s ss h k)

starts_with :
    (older : List Segment) (active : Segment)
    → (s : Segment) × (ss : List Segment) × (older ++ active ∷ [] ≡ s ∷ ss)
starts_with [] active = (active, [], refl)
starts_with (s ∷ older) active = (s, older ++ active ∷ [], refl)

-- In a log without empty segments, whose timestamps rise strictly through it, the offset for a
-- timestamp is the earliest one whose timestamp is not below it, and the offset after the log if there
-- is none.
pub offset_for_timestamp-earliest :
    (l : Log) (timestamp lo : ℤ)
    → All HasRecords (segments l)
    → Later lo (view (segments l))
    → offset_for_timestamp l timestamp
      ≡ some (earliest (next_offset l.active) timestamp (view (segments l)))
unfolding offset_for_timestamp
offset_for_timestamp-earliest l t lo h k =
    let (s, ss, e) = starts_with l.older l.active in
    subst
      (λ xs.
        let at = find_segment_index_by_timestamp xs t in
        (if at.1
          then none
          else search_segments (next_offset l.active) t
              (if at.0 == 0 then get_elem? xs 0 else get_elem? xs (at.0 - 1)) (get_elem? xs at.0))
        ≡ some (earliest (next_offset l.active) t (view xs)))
      (sym e)
      (found_in (next_offset l.active) t lo s ss (subst (All HasRecords) e h)
        (subst (λ xs. Later lo (view xs)) e k))

-- Segments that start at the timestamp or before it.
abbrev pub StartsBy : ℤ → Segment → Type 0
StartsBy t s = starts_after t s ≡ some false

probe-older :
    (t : ℤ) (older : List Segment) (active : Segment) (m : ℕ)
    → All (StartsBy t) older
    → m < length older
    → probe t (get_elem? (older ++ active ∷ []) m) ≡ some false
unfolding probe
probe-older t [] active m h lt = absurd (omega (arith, lt))
probe-older t (s ∷ older) active zero h lt = h.0
probe-older t (s ∷ older) active (suc m) h lt = probe-older t older active m h.1 (omega (arith, lt))

probe-active :
    (t : ℤ) (older : List Segment) (active : Segment)
    → active.records ≡ []
    → probe t (get_elem? (older ++ active ∷ []) (length older)) ≡ none
unfolding probe starts_after first_after
probe-active t [] active e = rw e refl
probe-active t (s ∷ older) active e = probe-active t older active e

length-snoc :
    (older : List Segment) (active : Segment) → length (older ++ active ∷ []) ≡ suc (length older)
length-snoc [] active = refl
length-snoc (s ∷ older) active = ap (λ n. suc n) (length-snoc older active)

-- With an empty active segment, as a log has that is new or that has just rolled out a segment, there
-- is no answer for a timestamp that no older segment starts after, but an error.
pub offset_for_timestamp_fails :
    (l : Log) (timestamp : ℤ)
    → l.active.records ≡ []
    → All (StartsBy timestamp) l.older
    → offset_for_timestamp l timestamp ≡ none
unfolding offset_for_timestamp find_segment_index_by_timestamp
offset_for_timestamp_fails l t e h =
    let n = length l.older in
    let f = λ (i : ℕ). probe t (get_elem? (segments l) i) in
    let err : (probe_loop (length (segments l)) f 0 (length (segments l)) false).1 ≡ true =
      probe_loop-fails (length (segments l)) n f 0 (length (segments l)) false
        (λ m lt. probe-older t l.older l.active m h lt) (probe-active t l.older l.active e)
        (omega arith) (omega arith) (inl (length-snoc l.older l.active)) in
    rw err refl
