-- ===== src/Log/Order.antt =====
-- A well-formed log: its segments follow one another, and offsets rise through all of them.
use liftbridge.Common.{
  ◌≡◌, refl, sym, subst, ℤ, pos, ◌+ℤ◌, ◌-ℤ◌, ◌≤ℤ◌, +ℤ_parts, -ℤ_parts, eq_of_parts, false, List, [],
  ◌∷◌, ◌++◌, append_assoc, arith, init_of-last_of,
}
use liftbridge.Segment.{Record, Segment, next_offset}
use liftbridge.Segment.Write.{IsValid, Rising, end_of-le, Rising-append, next_offset-end_of}
use liftbridge.Log.{Log, segments, newest_offset, restore}

-- All records of a sequence of segments.
abbrev pub view : List Segment → List Record
view [] = []
view (s ∷ ss) = s.records ++ view ss

abbrev pub Chain : ℤ → List Segment → Type 0
Chain lo [] = Unit {0}
Chain lo (s ∷ ss) = (lo ≤ℤ s.base_offset) × IsValid s × Chain (next_offset s) ss

pub record IsValidLog (l : Log) : Type 0 where
  pub chain : Chain (pos 0) (segments l)
  pub open_active : l.active.closed ≡ false

pub view-append : (xs ys : List Segment) → view (xs ++ ys) ≡ view xs ++ view ys
view-append [] ys = refl
view-append (x ∷ xs) ys = rw (view-append xs ys) (sym (append_assoc x.records (view xs) (view ys)))

abbrev pub chain_end : ℤ → List Segment → ℤ
chain_end lo [] = lo
chain_end lo (s ∷ ss) = chain_end (next_offset s) ss

pub Chain-append :
    (lo : ℤ) (xs ys : List Segment) → Chain lo xs → Chain (chain_end lo xs) ys → Chain lo (xs ++ ys)
Chain-append lo [] ys h k = k
Chain-append lo (x ∷ xs) ys h k = (h.0, h.1, Chain-append (next_offset x) xs ys h.2 k)

pub Chain-append_left : (lo : ℤ) (xs ys : List Segment) → Chain lo (xs ++ ys) → Chain lo xs
Chain-append_left lo [] ys h = tt
Chain-append_left lo (x ∷ xs) ys h = (h.0, h.1, Chain-append_left (next_offset x) xs ys h.2)

pub Chain-append_right :
    (lo : ℤ) (xs ys : List Segment) → Chain lo (xs ++ ys) → Chain (chain_end lo xs) ys
Chain-append_right lo [] ys h = h
Chain-append_right lo (x ∷ xs) ys h = Chain-append_right (next_offset x) xs ys h.2

pub chain_end-snoc :
    (lo : ℤ) (xs : List Segment) (s : Segment) → chain_end lo (xs ++ s ∷ []) ≡ next_offset s
chain_end-snoc lo [] s = refl
chain_end-snoc lo (x ∷ xs) s = chain_end-snoc (next_offset x) xs s

pub next_offset-le : (s : Segment) → IsValid s → s.base_offset ≤ℤ next_offset s
next_offset-le s v = rw (next_offset-end_of s v) (end_of-le s.base_offset s.records v.rising)

-- The next offset of the log.
pub newest_offset-next : (l : Log) → newest_offset l +ℤ pos 1 ≡ next_offset l.active
unfolding newest_offset
newest_offset-next l = eq_of_parts _ _ (
    omega (
      arith,
      +ℤ_parts (next_offset l.active -ℤ pos 1) (pos 1),
      -ℤ_parts (next_offset l.active) (pos 1),
    ))

Rising-weaken : (lo lo' : ℤ) (rs : List Record) → lo ≤ℤ lo' → Rising lo' rs → Rising lo rs
Rising-weaken lo lo' [] h r = tt
Rising-weaken lo lo' (x ∷ xs) h r = (omega (arith, r.0), r.1)

-- Through a chain of segments the offsets rise.
pub view-Rising : (lo : ℤ) (ss : List Segment) → Chain lo ss → Rising lo (view ss)
view-Rising lo [] h = tt
view-Rising lo (s ∷ ss) h = Rising-weaken lo s.base_offset _ h.0 (
    Rising-append s.base_offset s.records (view ss) h.1.rising (
      subst (λ e. Rising e (view ss)) (next_offset-end_of s h.1)
        (view-Rising (next_offset s) ss h.2)))

-- What a log is made of after its segments are set.
pub segments-restore :
    (l : Log) (s : Segment) (ss : List Segment) → segments (restore l (s ∷ ss)) ≡ s ∷ ss
segments-restore l s ss = init_of-last_of s ss
