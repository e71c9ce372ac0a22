-- ===== src/Reader/Rounds.antt =====
-- How often the loop of a read goes round: each time it has read bytes, has moved to a later segment of
-- the log, or has found a new high watermark.
use liftbridge.Common.{
  ℕ, zero, suc, ◌+◌, ◌-◌, ◌≤◌, ◌<◌, ◌≡◌, refl, ap, inl, inr, ℤ, pos, ◌+ℤ◌, ◌≤ℤ◌, ◌<ℤ◌, leb_ℤ, ltb_ℤ,
  eqb_ℤ, +ℤ_parts, true, List, [], ◌∷◌, Option, none, some, arith, if◌then◌else◌, length, get_elem?,
  Bool-cases, All,
}
use liftbridge.Common.Search.{search, search-Found, holds_at}
use liftbridge.Segment.{Segment}
use liftbridge.Log.{Log, segments}
use liftbridge.Reader.{
  ok, Place, Committed, Outcome, done, failed, panicked, out_of_rounds, find_segment_by_base_offset,
  get_hw_pos, wait_for_change, Next,
}

-- The segments behind an offset.
unfoldable pub later : ℤ → List Segment → ℕ
later b [] = 0
later b (s ∷ ss) = let rest = later b ss in if ltb_ℤ b s.base_offset then suc rest else rest

unfoldable pub before : Option Place → List Segment → ℕ
unfolding later
before none ss = 0
before (some p) ss = later p.base ss

-- The segments of logs, and the logs.
unfoldable pub ahead : List Log → ℕ
ahead [] = 0
ahead (l ∷ ls) = suc (length (segments l) + ahead ls)

-- Whether the reader has yet to find the high watermark of its log.
unfoldable pub stale : Log → ℤ → ℕ
stale l hw = if eqb_ℤ l.hw hw then 0 else 1

unfoldable pub rounds_left : Log → List Log → ℕ → Committed → ℕ → ℕ
unfolding before ahead stale
rounds_left l worlds len r n = (len - n) + before r.next (segments l) + ahead worlds + stale l r.hw

-- The log has the message at its high watermark.
abbrev pub Located : Log → Type 0
Located l = (q : Place) × (get_hw_pos (segments l) l.hw ≡ ok q)

-- The loop has come to an end, and has read all it should when there is no error.
abbrev pub Ends : ℕ → Outcome → Type 0
Ends len (done r n) = n ≡ len
Ends len (failed r n e) = Unit
Ends len panicked = Unit
Ends len out_of_rounds = ⊥

abbrev pub EndsIn : ℕ → ℕ → Next → Type 0
EndsIn len k next =
    (l : Log) (worlds : List Log) (r : Committed) (n : ℕ)
    → rounds_left l worlds len r n < k
    → All Located (l ∷ worlds)
    → Ends len (next l worlds r n)

later-length : (b : ℤ) (ss : List Segment) → later b ss ≤ length ss
unfolding later
later-length b [] = omega arith
later-length b (s ∷ ss) = let rest = later-length b ss in ground (arith, rest)

pub before-length : (o : Option Place) (ss : List Segment) → before o ss ≤ length ss
unfolding before
before-length none ss = omega arith
before-length (some p) ss = later-length p.base ss

later-le : (b b' : ℤ) (ss : List Segment) → b ≤ℤ b' → later b' ss ≤ later b ss
unfolding later
later-le b b' [] le = omega arith
later-le b b' (s ∷ ss) le = let rest = later-le b b' ss le in ground (arith, rest, le)

later-drops :
    (b : ℤ) (ss : List Segment) (i : ℕ) (s : Segment)
    → get_elem? ss i ≡ some s
    → b <ℤ s.base_offset
    → later s.base_offset ss < later b ss
unfolding later
later-drops b [] i s h lt = cc
later-drops b (x ∷ xs) zero s h lt =
    let same : x ≡ s = cc in
    let rest = later-le b s.base_offset xs (omega (arith, lt)) in rw same (ground (arith, rest, lt))
later-drops b (x ∷ xs) (suc i) s h lt =
    let rest = later-drops b xs i s h lt in ground (arith, rest, lt)

get_elem?-lt : (ss : List Segment) (i : ℕ) (s : Segment) → get_elem? ss i ≡ some s → i < length ss
get_elem?-lt [] i s h = cc
get_elem?-lt (x ∷ xs) zero s h = omega arith
get_elem?-lt (x ∷ xs) (suc i) s h = let rest = get_elem?-lt xs i s h in omega (arith, rest)

-- The search for the next segment finds a later one, in whatever order the segments are.
pub find_next_later :
    (b : ℤ) (ss : List Segment) (s : Segment)
    → find_segment_by_base_offset ss (b +ℤ pos 1) ≡ some s
    → later s.base_offset ss < later b ss
unfolding find_segment_by_base_offset
find_next_later b ss s h =
    let p = λ (x : Segment). leb_ℤ (b +ℤ pos 1) x.base_offset in
    let i = search (length ss) (holds_at p ss) in
    let hit = (search-Found (length ss) (holds_at p ss)).hit (get_elem?-lt ss i s h) in
    let at : p s ≡ true = rw (h, holds_at) at hit in
    later-drops b ss i s h (ground (arith, at, +ℤ_parts b (pos 1)))

-- What a reader that wakes up has left: fewer logs, each with its high watermark.
pub wait_for_change-ahead :
    (hw : ℤ) (worlds : List Log) (l' : Log) (rest : List Log)
    → wait_for_change hw worlds ≡ some (l', rest)
    → All Located worlds
    → (ahead (l' ∷ rest) ≤ ahead worlds) × All Located (l' ∷ rest)
unfolding wait_for_change ahead
wait_for_change-ahead hw [] l' rest h a = cc
wait_for_change-ahead hw (l ∷ worlds) l' rest h a = elim (Bool-cases (eqb_ℤ l.hw hw)) [
  | inl same ↦
      let (fewer, located) =
        wait_for_change-ahead hw worlds l' rest (rw (same, wait_for_change) at h) a.1 in
      (omega (arith, fewer), located)
  | inr changed ↦
      let e : ◌≡◌ {A = Option (Log × List Log)} (some (l, worlds)) (some (l', rest)) =
        rw (changed, wait_for_change) at h in
      let pair : ◌≡◌ {A = Log × List Log} (l, worlds) (l', rest) = cc in
      let log : l ≡ l' = ap (λ c. c.0) pair in
      let logs : worlds ≡ rest = ap (λ c. c.1) pair in rw (← log, ← logs) (omega arith, a)
]

pub stale_self : (l : Log) → stale l l.hw ≡ 0
unfolding stale
stale_self l = let same : eqb_ℤ l.hw l.hw ≡ true = ground arith in rw same refl
