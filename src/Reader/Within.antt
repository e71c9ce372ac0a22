-- ===== src/Reader/Within.antt =====
-- A reader of committed messages does not read beyond the high watermark.
use liftbridge.Common.{
  ℕ, zero, suc, ◌+◌, ◌-◌, ◌≤◌, ◌≡◌, refl, sym, ap, subst, ◌∙◌, ◌⊎◌, inl, inr, ℤ, pos, ◌+ℤ◌, ◌≤ℤ◌,
  ◌<ℤ◌, leb_ℤ, ltb_ℤ, eqb_ℤ, +ℤ_parts, eq_of_parts, le→leb_ℤ, true, false, List, [], ◌∷◌, Option,
  none, some, arith, ltb, ◌==◌, get_elem?, Bool-cases, Option-cases, All,
}
use liftbridge.Common.Search.{first_where, IsUpward, search-index_where, get_elem?-index_where}
use liftbridge.Segment.{Segment, read_error, next_offset}
use liftbridge.Log.{Log, segments}
use liftbridge.Log.Order.{Chain, next_offset-le}
use liftbridge.Reader.{
  Result, ok, error, Place, Committed, Outcome, done, failed, panicked, out_of_rounds,
  find_segment_by_base_offset, get_hw_pos, wait_for_change, held, smaller, room, Next, move_on,
  relimit, synced, after_read, read_at, round, read_loop, read_from, read,
}

-- Places of a log in their order.
abbrev pub Below : Place → Place → Type 0
Below p q = (p.base <ℤ q.base) ⊎ ((p.base ≡ q.base) × (p.at ≤ q.at))

abbrev pub AtMost : Option Place → Place → Type 0
AtMost none q = Unit {0}
AtMost (some p) q = Below p q

abbrev pub Within : Committed → Place → Type 0
Within r q = AtMost r.next q

-- The file of the segment has the bytes up to the place.
abbrev pub Fits : Place → Option Segment → Type 0
Fits q none = ⊥
Fits q (some s) = q.at ≤ s.position

abbrev pub HasPlace : Log → Place → Type 0
HasPlace l q = Chain (pos 0) (segments l) × Fits q (held (segments l) q.base)

-- Whenever the high watermark has changed it ends at the same place or later, in a well-formed log that
-- has it.
abbrev pub Grows : ℤ → Place → List Log → Type 0
Grows hw q [] = Unit
Grows hw q (l ∷ worlds) = elim (eqb_ℤ l.hw hw) [
  | true ↦ Grows hw q worlds
  | false ↦ elim (get_hw_pos (segments l) l.hw) [
    | error e ↦ Unit
    | ok q' ↦ Below q q' × HasPlace l q' × Grows l.hw q' worlds
  ]
]

-- What a read keeps.
pub record Keeps (l : Log) (worlds : List Log) (r : Committed) (q : Place) : Type 0 where
  pub limit : r.limit ≡ some q
  pub within : Within r q
  pub has : HasPlace l q
  pub grows : Grows r.hw q (l ∷ worlds)

-- The reader that a read leaves, with or without an error, is not beyond its limit.
abbrev pub StaysWithin : Outcome → Type 0
StaysWithin (done r n) = (q : Place) × (r.limit ≡ some q) × Within r q
StaysWithin (failed r n e) = (q : Place) × (r.limit ≡ some q) × Within r q
StaysWithin panicked = Unit
StaysWithin out_of_rounds = Unit

held-base : (ss : List Segment) (b : ℤ) (s : Segment) → held ss b ≡ some s → s.base_offset ≡ b
unfolding held
held-base [] b s h = cc
held-base (x ∷ xs) b s h = elim (Bool-cases (eqb_ℤ x.base_offset b)) [
  | inl here ↦
      let e : some x ≡ some s = rw (here, held) at h in
      let same : x ≡ s = cc in rw (← same) (ground (arith, here))
  | inr later ↦ held-base xs b s (rw (later, held) at h)
]

bases_rise :
    (lo b : ℤ) (ss : List Segment)
    → Chain lo ss
    → b ≤ℤ lo
    → All (λ s. leb_ℤ b s.base_offset ≡ true) ss
bases_rise lo b [] c le = tt
bases_rise lo b (s ∷ ss) c le = (
  le→leb_ℤ b s.base_offset (omega (arith, c.0, le)),
  bases_rise (next_offset s) b ss c.2 (omega (arith, c.0, le, next_offset-le s c.1)),
)

bases-IsUpward :
    (lo b : ℤ) (ss : List Segment) → Chain lo ss → IsUpward (λ s. leb_ℤ b s.base_offset) ss
bases-IsUpward lo b [] c = tt
bases-IsUpward lo b (s ∷ ss) c = (
  λ at.
      bases_rise (next_offset s) b ss c.2 (
        let le : b ≤ℤ s.base_offset = ground (arith, at) in
        omega (arith, le, next_offset-le s c.1)),
  bases-IsUpward (next_offset s) b ss c.2,
)

find_by_base-first_where :
    (b : ℤ) (ss : List Segment)
    → Chain (pos 0) ss
    → find_segment_by_base_offset ss b ≡ first_where (λ s. leb_ℤ b s.base_offset) ss
unfolding find_segment_by_base_offset
find_by_base-first_where b ss c =
    ap (get_elem? ss) (search-index_where _ ss (bases-IsUpward (pos 0) b ss c))
    ∙ get_elem?-index_where (λ (s : Segment). leb_ℤ b s.base_offset) ss

pub held-le :
    (lo b : ℤ) (ss : List Segment) (s : Segment) → Chain lo ss → held ss b ≡ some s → lo ≤ℤ b
unfolding held
held-le lo b [] s c h = cc
held-le lo b (x ∷ xs) s c h = elim (Bool-cases (eqb_ℤ x.base_offset b)) [
  | inl here ↦ let e : x.base_offset ≡ b = ground (arith, here) in rw (← e) c.0
  | inr later ↦
      let rest = held-le (next_offset x) b xs s c.2 (rw (later, held) at h) in
      omega (arith, rest, c.0, next_offset-le x c.1)
]

-- The segment after one that is before the limit is not behind the limit.
first_where-le :
    (lo b b' : ℤ) (ss : List Segment) (s t : Segment)
    → Chain lo ss
    → first_where (λ x. leb_ℤ b x.base_offset) ss ≡ some s
    → held ss b' ≡ some t
    → b ≤ℤ b'
    → s.base_offset ≤ℤ b'
unfolding held
first_where-le lo b b' [] s t c h k le = cc
first_where-le lo b b' (x ∷ xs) s t c h k le = elim (Bool-cases (leb_ℤ b x.base_offset)) [
  | inl first ↦
      let e : some x ≡ some s = rw (first, first_where) at h in
      let same : x ≡ s = cc in
      elim (Bool-cases (eqb_ℤ x.base_offset b')) [
        | inl here ↦ rw (← same) (ground (arith, here))
        | inr later ↦
            let rest = held-le (next_offset x) b' xs t c.2 (rw (later, held) at k) in
            rw (← same) (omega (arith, rest, next_offset-le x c.1))
      ]
  | inr not_yet ↦ elim (Bool-cases (eqb_ℤ x.base_offset b')) [
    | inl here ↦ absurd (ground (arith, not_yet, here, le))
    | inr later ↦
        first_where-le (next_offset x) b b' xs s t c.2 (rw (not_yet, first_where) at h)
          (rw (later, held) at k) le
  ]
]

-- A step of the loop that goes on with a reader within its limit.
abbrev pub Goes : Next → Type 0
Goes next =
    (l : Log) (worlds : List Log) (r : Committed) (n : ℕ) (q : Place)
    → Keeps l worlds r q
    → StaysWithin (next l worlds r n)

Below-trans : (p q s : Place) → Below p q → Below q s → Below p s
Below-trans p q s (inl a) (inl b) = inl (omega (arith, a, b))
Below-trans p q s (inl a) (inr b) = inl (subst (λ x. p.base <ℤ x) b.0 a)
Below-trans p q s (inr a) (inl b) = inl (subst (λ x. x <ℤ s.base) (sym a.0) b)
Below-trans p q s (inr a) (inr b) = inr (a.0 ∙ b.0, omega (arith, a.1, b.1))

AtMost-weaken : (o : Option Place) (q q' : Place) → AtMost o q → Below q q' → AtMost o q'
AtMost-weaken none q q' h le = tt
AtMost-weaken (some p) q q' h le = Below-trans p q q' h le

abbrev Changes : Log → List Log → Place → Result Place → Type 0
Changes l worlds q (error e) = Unit {0}
Changes l worlds q (ok q') = Below q q' × HasPlace l q' × Grows l.hw q' worlds

relimit-StaysWithin :
    (next : Next) (l : Log) (worlds : List Log) (r : Committed) (n : ℕ) (q : Place)
    (o : Result Place)
    → Goes next
    → r.limit ≡ some q
    → Within r q
    → Changes l worlds q o
    → StaysWithin (relimit next l worlds r n o)
unfolding relimit
relimit-StaysWithin next l worlds r n q (error e1) goes e w h = (q, e, w)
relimit-StaysWithin next l worlds r n q (ok q') goes e w h =
    let same : eqb_ℤ l.hw l.hw ≡ true = ground arith in
    goes l worlds (record r { hw = l.hw; limit = some q' }) n q'
      (record {
        limit = refl;
        within = AtMost-weaken r.next q q' w h.0;
        has = h.1;
        grows = rw (same, Grows) h.2;
      })

by_result :
    (l : Log) (worlds : List Log) (q : Place) (o : Result Place)
    → elim o as (λ x. Type 0) [
      | error e ↦ Unit {0}
      | ok q' ↦ Below q q' × HasPlace l q' × Grows l.hw q' worlds
    ]
    → Changes l worlds q o
by_result l worlds q (error e) h = tt
by_result l worlds q (ok q') h = h

Grows-Changes :
    (hw : ℤ) (l : Log) (worlds : List Log) (q : Place)
    → eqb_ℤ l.hw hw ≡ false
    → Grows hw q (l ∷ worlds)
    → Changes l worlds q (get_hw_pos (segments l) l.hw)
Grows-Changes hw l worlds q changed g =
    by_result l worlds q (get_hw_pos (segments l) l.hw) (rw (changed, Grows) at g)

synced-StaysWithin :
    (next : Next) (r : Committed) (n : ℕ) (q : Place) (worlds : List Log)
    → Goes next
    → r.limit ≡ some q
    → Within r q
    → Grows r.hw q worlds
    → StaysWithin (synced next r n (wait_for_change r.hw worlds))
unfolding wait_for_change synced relimit
synced-StaysWithin next r n q [] goes e w g = (q, e, w)
synced-StaysWithin next r n q (l ∷ worlds) goes e w g = elim (Bool-cases (eqb_ℤ l.hw r.hw)) [
  | inl same ↦ rw same (synced-StaysWithin next r n q worlds goes e w (rw (same, Grows) at g))
  | inr changed ↦ rw changed (
      relimit-StaysWithin next l worlds r n q (get_hw_pos (segments l) l.hw) goes e w
        (Grows-Changes r.hw l worlds q changed g))
]

held_place :
    (l : Log) (q : Place) → HasPlace l q → (s : Segment) × (held (segments l) q.base ≡ some s)
held_place l q h = elim (Option-cases (held (segments l) q.base)) [
  | inl gone ↦ absurd (subst (Fits q) gone h.1)
  | inr found ↦ found
]

pub front_Below :
    (s : Segment) (q : Place)
    → s.base_offset ≤ℤ q.base
    → Below (record { base = s.base_offset; at = 0 }) q
front_Below s q le = elim (Bool-cases (ltb_ℤ s.base_offset q.base)) [
  | inl before ↦ inl (ground (arith, before))
  | inr same ↦ inr (eq_of_parts s.base_offset q.base (ground (arith, same, le)), omega arith)
]

move_on-StaysWithin :
    (next : Next) (l : Log) (worlds : List Log) (r : Committed) (n : ℕ) (p q : Place)
    → Goes next
    → Keeps l worlds r q
    → p.base <ℤ q.base
    → StaysWithin
        (move_on next l worlds r n (find_segment_by_base_offset (segments l) (p.base +ℤ pos 1)))
unfolding move_on
move_on-StaysWithin next l worlds r n p q goes k lt =
    elim (Option-cases (find_segment_by_base_offset (segments l) (p.base +ℤ pos 1))) [
      | inl last ↦ rw last (q, k.limit, k.within)
      | inr (s, found) ↦
          let (t, holds) = held_place l q k.has in
          let first =
            sym (find_by_base-first_where (p.base +ℤ pos 1) (segments l) k.has.0) ∙ found in
          let le =
            first_where-le (pos 0) (p.base +ℤ pos 1) q.base (segments l) s t k.has.0 first holds
              (omega (arith, lt, +ℤ_parts p.base (pos 1))) in
          rw found (
            goes l worlds (record r { next = some (record { base = s.base_offset; at = 0 }) }) n q
              (record {
                limit = k.limit;
                within = front_Below s q le;
                has = k.has;
                grows = k.grows;
              }))
    ]

-- What the limit leaves to read, and where that ends.
smaller_lem : (a b : ℕ) → (smaller a b ≤ a) × (smaller a b ≤ b)
unfolding smaller
smaller_lem a b = ground arith

whole_read : (a b : ℕ) → a ≤ b → ltb (smaller a b) a ≡ false
unfolding smaller
whole_read a b h = ground arith

moved_Below :
    (p q : Place) (size : ℕ)
    → Below p q
    → (p.base <ℤ q.base) ⊎ (p.at + size ≤ q.at)
    → Below (record { base = p.base; at = p.at + size }) q
moved_Below p q size (inl a) at = inl a
moved_Below p q size (inr a) (inl before) = inl before
moved_Below p q size (inr a) (inr ends) = inr (a.0, ends)

room_lem :
    (p q : Place) (wanted : ℕ)
    → Below p q
    → (room (some q) p wanted ≡ none)
      ⊎ ((lim : ℕ) × (room (some q) p wanted ≡ some lim)
          × ((p.base <ℤ q.base) ⊎ ((p.base ≡ q.base) × (lim ≤ q.at - p.at) × (p.at ≤ q.at))))
unfolding room
room_lem p q wanted b = elim (Bool-cases (eqb_ℤ q.base p.base)) [
  | inr other ↦
      let before : p.base <ℤ q.base = elim b [
        | inl lt ↦ lt
        | inr at ↦ let same = at.0 in absurd (ground (arith, other, same))
      ] in
      inr (wanted, (rw other refl), inl before)
  | inl same ↦ elim (Bool-cases (ltb q.at p.at)) [
    | inl beyond ↦ inl (rw (same, beyond) refl)
    | inr left ↦ inr (
      smaller wanted (q.at - p.at),
      (rw (same, left) refl),
      inr (
        eq_of_parts p.base q.base (ground (arith, same)),
        (smaller_lem wanted (q.at - p.at)).1,
        ground (arith, left),
      ),
    )
  ]
]

module _ (next : Next) (goes : Goes next) (l : Log) (worlds : List Log) (len : ℕ) (r : Committed)
    (n : ℕ) (p q : Place) (k : Keeps l worlds r q) where
  -- After a read that keeps to the limit; where it ends early, the segment is before the limit's.
  after_read-StaysWithin :
      (size wanted : ℕ)
      → Below (record { base = p.base; at = p.at + size }) q
      → (p.base <ℤ q.base) ⊎ (ltb size wanted ≡ false)
      → StaysWithin (after_read next l worlds len r n p size wanted)
  unfolding after_read
  after_read-StaysWithin size wanted b early =
      let moved = record r { next = some (record { base = p.base; at = p.at + size }) } in
      let kept : Keeps l worlds moved q = record {
        limit = k.limit;
        within = b;
        has = k.has;
        grows = k.grows;
      } in
      elim (Bool-cases (n + size == len)) [
        | inl full ↦ rw full (q, k.limit, b)
        | inr part ↦ elim (Bool-cases (ltb size wanted)) [
          | inl short ↦
              let lt : p.base <ℤ q.base = elim early [ inl h ↦ h | inr h ↦ cc (h, short) ] in
              let on = move_on-StaysWithin next l worlds moved (n + size) p q goes kept lt in
              elim (Bool-cases (size == 0)) [
                | inl none_read ↦ rw (part, short, none_read) on
                | inr some_read ↦ rw (part, short, some_read) on
              ]
          | inr whole ↦ elim (Bool-cases (size == 0)) [
            | inl none_read ↦
                rw (part, whole, none_read)
                  (synced-StaysWithin next moved (n + size) q (l ∷ worlds) goes k.limit b k.grows)
            | inr some_read ↦ rw (part, whole, some_read) (goes l worlds moved (n + size) q kept)
          ]
        ]
      ]

  -- A read from a segment whose bytes up to the limit are there.
  read_some-StaysWithin :
      (lim : ℕ) (s : Segment)
      → Below p q
      → (p.base <ℤ q.base) ⊎ ((lim ≤ q.at - p.at) × (p.at ≤ q.at) × (q.at ≤ s.position))
      → StaysWithin (read_at next l worlds len r n p (some lim) (some s))
  unfolding read_at
  read_some-StaysWithin lim s b ends = elim (Bool-cases (ltb lim n)) [
    | inl beyond ↦ rw beyond tt
    | inr inside ↦
        let size = smaller (lim - n) (s.position - p.at) in
        let at = smaller_lem (lim - n) (s.position - p.at) in
        elim (Option-cases (read_error s)) [
          | inr (e, wrong) ↦ rw (inside, wrong) (q, k.limit, k.within)
          | inl open_ ↦
              rw (inside, open_)
                (after_read-StaysWithin size (lim - n)
                  (moved_Below p q size b (elim ends [
                    | inl before ↦ inl before
                    | inr h ↦ inr (omega (arith, h.0, h.1, h.2, at.0))
                  ]))
                  (elim ends [
                    | inl before ↦ inl before
                    | inr h ↦
                        inr (whole_read (lim - n) (s.position - p.at) (omega (arith, h.0, h.2)))
                  ]))
        ]
  ]

  round-StaysWithin : r.next ≡ some p → StaysWithin (round next l worlds len r n (some p))
  unfolding round room read_at
  round-StaysWithin at =
      let b : Below p q = subst (λ o. AtMost o q) at k.within in
      let limit : room r.limit p (len - n) ≡ room (some q) p (len - n) =
        ap (λ o. room o p (len - n)) k.limit in
      elim (room_lem p q (len - n) b) [
        | inl beyond ↦ rw (limit, beyond) tt
        | inr (lim, left, ends) ↦ elim (Option-cases (held (segments l) p.base)) [
          | inl gone ↦ rw (limit, left, gone) (q, k.limit, k.within)
          | inr (s, holds) ↦
              rw (limit, left, holds)
                (read_some-StaysWithin lim s b (elim ends [
                  | inl before ↦ inl before
                  | inr h ↦
                      let fits : q.at ≤ s.position =
                        subst (Fits q) (ap (held (segments l)) (sym h.0) ∙ holds) k.has.1 in
                      inr (h.1, h.2, fits)
                ]))
        ]
      ]

read_loop-StaysWithin : (k len : ℕ) → Goes (λ l worlds r n. read_loop k l worlds len r n)
unfolding read_loop
read_loop-StaysWithin zero len l worlds r n q k = tt
read_loop-StaysWithin (suc j) len l worlds r n q k = elim (Option-cases r.next) [
  | inl nil ↦ rw nil (unfold round in tt)
  | inr (p, at) ↦
      subst
        (λ o.
          StaysWithin
            (round (λ l' worlds' r' n'. read_loop j l' worlds' len r' n') l worlds len r n o))
        (sym at)
        (round-StaysWithin (λ l' worlds' r' n'. read_loop j l' worlds' len r' n')
          (read_loop-StaysWithin j len) l worlds len r n p q k at)
]

-- Whatever is read, over whatever logs whose high watermark ends later and later, and however far the
-- read gets, a reader that is at the end of the high watermark or before it is so afterwards, with
-- the limit that it has then: no byte beyond the high watermark is read.
pub read-StaysWithin :
    (k len : ℕ) (l : Log) (worlds : List Log) (r : Committed) (p q : Place)
    → r.next ≡ some p
    → Keeps l worlds r q
    → StaysWithin (read k l worlds len r)
unfolding read read_from
read-StaysWithin k len l worlds r p q at h =
    subst (λ o. StaysWithin (read_from k l worlds len r o)) (sym at)
      (read_loop-StaysWithin k len l worlds r 0 q h)
