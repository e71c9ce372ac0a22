-- ===== src/Reader/Stops.antt =====
-- A reader of committed messages stops at the end of the message at a high watermark.
use liftbridge.Common.{
  ℕ, ◌+◌, ◌≡◌, refl, sym, subst, ◌∙◌, ◌⊎◌, inl, inr, ℤ, pos, ◌≤ℤ◌, List, [], ◌∷◌, Option, none,
  some, Bool-cases, All,
}
use liftbridge.Common.Search.{first_where}
use liftbridge.Segment.{Record, Segment, next_offset}
use liftbridge.Segment.Write.{IsValid}
use liftbridge.Segment.Find.{find_entry-first_where}
use liftbridge.Log.{Log, segments}
use liftbridge.Log.Order.{Chain}
use liftbridge.Reader.{
  ok, Place, Committed, Outcome, done, failed, panicked, out_of_rounds, get_hw_pos,
  new_reader_committed, read,
}
use liftbridge.Reader.Within.{Within, Grows, StaysWithin, read-StaysWithin}
use liftbridge.Reader.Limit.{LimitIs, Gives, read-LimitIs}
use liftbridge.Reader.Start.{
  IsReadable, reaches, ends_after, get_hw_pos-ok, find_segment-first_where,
  new_reader_committed-Keeps, new_reader_committed-limit,
}

-- The end of the message at the high watermark: of the first one that is not below it.
abbrev pub EndsAt : Log → Place → Type 0
EndsAt l q =
    (t : Segment) × (y : Record) × (first_where (ends_after l.hw) (segments l) ≡ some t)
    × (first_where (reaches l.hw) t.records ≡ some y)
    × (q ≡ record { base = t.base_offset; at = y.position + y.size })

abbrev pub Among : Log → List Log → Type 0
Among l [] = ⊥
Among l (x ∷ xs) = (l ≡ x) ⊎ Among l xs

abbrev pub IsChained : Log → Type 0
IsChained l = Chain (pos 0) (segments l)

-- The reader is at the end of the message at the high watermark of one of the logs, or before it.
abbrev pub IsCommitted : List Log → Committed → Type 0
IsCommitted logs r = (l : Log) × (q : Place) × Among l logs × EndsAt l q × Within r q

abbrev pub StaysCommitted : List Log → Outcome → Type 0
StaysCommitted logs (done r n) = IsCommitted logs r
StaysCommitted logs (failed r n e) = IsCommitted logs r
StaysCommitted logs panicked = Unit
StaysCommitted logs out_of_rounds = Unit

abbrev EndsAmong : List Log → Option Place → Type 0
EndsAmong logs none = Unit {0}
EndsAmong logs (some q) = (l : Log) × Among l logs × EndsAt l q

first_where-IsValid :
    (hw lo : ℤ) (ss : List Segment) (t : Segment)
    → Chain lo ss
    → first_where (ends_after hw) ss ≡ some t
    → IsValid t
first_where-IsValid hw lo [] t c h = cc
first_where-IsValid hw lo (s ∷ ss) t c h = elim (Bool-cases (ends_after hw s)) [
  | inl here ↦
      let e : some s ≡ some t = rw (here, first_where) at h in
      let same : s ≡ t = cc in subst IsValid same c.1
  | inr later ↦ first_where-IsValid hw (next_offset s) ss t c.2 (rw (later, first_where) at h)
]

get_hw_pos-EndsAt :
    (l : Log) (q : Place) → IsChained l → get_hw_pos (segments l) l.hw ≡ ok q → EndsAt l q
get_hw_pos-EndsAt l q c h =
    let (t, y, t_at, found, e) = get_hw_pos-ok (segments l) l.hw q h in
    let first = sym (find_segment-first_where l.hw (segments l) c) ∙ t_at in
    let valid = first_where-IsValid l.hw (pos 0) (segments l) t c first in
    (t, y, first, sym (find_entry-first_where t l.hw valid) ∙ found, e)

all_Gives :
    (all logs : List Log)
    → All IsChained logs
    → ((l : Log) → Among l logs → Among l all)
    → All (Gives (EndsAmong all)) logs
all_Gives all [] c into = tt
all_Gives all (l ∷ logs) c into = (
  λ q h. (l, into l (inl refl), get_hw_pos-EndsAt l q c.0 h),
  all_Gives all logs c.1 (λ x at. into x (inr at)),
)

both :
    (logs : List Log) (o : Outcome)
    → StaysWithin o
    → LimitIs (EndsAmong logs) o
    → StaysCommitted logs o
both logs (done r n) (q, e, w) h =
    let (l, at, ends) = subst (EndsAmong logs) e h in (l, q, at, ends, w)
both logs (failed r n x) (q, e, w) h =
    let (l, at, ends) = subst (EndsAmong logs) e h in (l, q, at, ends, w)
both logs panicked w h = tt
both logs out_of_rounds w h = tt

-- A reader of committed messages from an offset that the high watermark has reached stops, whether
-- the read ends with an error or not, at the end of the message at the high watermark or before it:
-- that of the log it starts in, or that of one of the logs that it finds when it wakes up. The
-- message at a high watermark is the first one in the log that is not below it. That holds where
-- the records of the log lie one behind the other in their segments, only its last segment may be
-- empty, the segments of each log follow one another, and the high watermark ends later and later.
pub new_reader_committed-StaysCommitted :
    (k len : ℕ) (l : Log) (offset : ℤ) (r : Committed) (p q : Place) (worlds : List Log)
    → IsReadable l
    → All IsChained worlds
    → pos 0 ≤ℤ offset
    → new_reader_committed l offset ≡ ok r
    → r.next ≡ some p
    → get_hw_pos (segments l) l.hw ≡ ok q
    → Grows l.hw q worlds
    → StaysCommitted (l ∷ worlds) (read k l worlds len r)
new_reader_committed-StaysCommitted k len l offset r p q worlds v chained low made at hw grows =
    let limit = new_reader_committed-limit l offset r p q low made at hw in
    let gives = all_Gives (l ∷ worlds) (l ∷ worlds) (v.chain, chained) (λ x h. h) in
    let start : EndsAmong (l ∷ worlds) r.limit =
      subst (EndsAmong (l ∷ worlds)) (sym limit) (l, inl refl, get_hw_pos-EndsAt l q v.chain hw) in
    both (l ∷ worlds) (read k l worlds len r)
      (read-StaysWithin k len l worlds r p q at
        (new_reader_committed-Keeps l offset r p q worlds v low made at hw grows))
      (read-LimitIs (EndsAmong (l ∷ worlds)) k len l worlds r p at start gives)
