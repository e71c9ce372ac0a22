-- ===== src/Reader/Ends.antt =====
-- A read ends.
use liftbridge.Common.{
  ℕ, zero, suc, ◌+◌, ◌-◌, ◌≤◌, ◌<◌, ◌≡◌, refl, sym, subst, inl, inr, pos, ◌+ℤ◌, eqb_ℤ, List, ◌∷◌,
  Option, none, some, arith, ltb, ◌==◌, Bool-cases, Option-cases, All,
}
use liftbridge.Segment.{Segment, read_error}
use liftbridge.Log.{Log, segments}
use liftbridge.Reader.{
  Result, ok, error, Place, Committed, find_segment, find_segment_by_base_offset, get_hw_pos,
  wait_for_change, held, smaller, room, Next, move_on, relimit, synced, after_read, read_at, round,
  read_loop, read_from, read, woken, with_limit, resume, start_at,
}
use liftbridge.Reader.Rounds.{
  later, before, ahead, stale, rounds_left, Located, Ends, EndsIn, before-length, find_next_later,
  wait_for_change-ahead, stale_self,
}

room-le :
    (o : Option Place) (p : Place) (wanted lim : ℕ) → room o p wanted ≡ some lim → lim ≤ wanted
unfolding room smaller
room-le none p wanted lim h = let same : wanted ≡ lim = cc in rw same (omega arith)
room-le (some q) p wanted lim h = ground (arith, h)

module _ (len k : ℕ) (next : Next) (goes : EndsIn len k next) where
  relimit-Ends :
      (l : Log) (worlds : List Log) (r : Committed) (n : ℕ)
      → (len - n) + before r.next (segments l) + ahead worlds < k
      → All Located (l ∷ worlds)
      → Ends len (relimit next l worlds r n (get_hw_pos (segments l) l.hw))
  unfolding relimit rounds_left
  relimit-Ends l worlds r n few a =
      let (q, at) = a.0 in
      let now = stale_self l in
      rw at (goes l worlds (record r { hw = l.hw; limit = some q }) n (omega (arith, few, now)) a)

  synced-Ends :
      (l : Log) (worlds : List Log) (r : Committed) (n : ℕ)
      → rounds_left l worlds len r n < suc k
      → All Located (l ∷ worlds)
      → Ends len (synced next r n (wait_for_change r.hw (l ∷ worlds)))
  unfolding synced wait_for_change rounds_left stale ahead
  synced-Ends l worlds r n few a = elim (Bool-cases (eqb_ℤ l.hw r.hw)) [
    | inr changed ↦ rw changed (relimit-Ends l worlds r n (ground (arith, few, changed)) a)
    | inl same ↦ rw same (elim (Option-cases (wait_for_change r.hw worlds)) [
      | inl closed ↦ rw closed tt
      | inr ((l', rest), found) ↦
          let (fewer, located) = wait_for_change-ahead r.hw worlds l' rest found a.1 in
          let at_most = before-length r.next (segments l') in
          rw found (relimit-Ends l' rest r n (ground (arith, few, same, fewer, at_most)) located)
    ])
  ]

  move_on-Ends :
      (l : Log) (worlds : List Log) (r : Committed) (n : ℕ) (p : Place)
      → r.next ≡ some p
      → rounds_left l worlds len r n < suc k
      → All Located (l ∷ worlds)
      → Ends len
          (move_on next l worlds r n (find_segment_by_base_offset (segments l) (p.base +ℤ pos 1)))
  unfolding move_on rounds_left before
  move_on-Ends l worlds r n p at few a =
      elim (Option-cases (find_segment_by_base_offset (segments l) (p.base +ℤ pos 1))) [
        | inl last ↦ rw last tt
        | inr (s, found) ↦
            let fewer = find_next_later p.base (segments l) s found in
            let few' : (len - n) + later p.base (segments l) + ahead worlds + stale l r.hw < suc k =
              rw at at few in
            rw found (
              goes l worlds (record r { next = some (record { base = s.base_offset; at = 0 }) }) n
                (omega (arith, few', fewer)) a)
      ]

  after_read-Ends :
      (l : Log) (worlds : List Log) (r : Committed) (n : ℕ) (p : Place) (size wanted : ℕ)
      → r.next ≡ some p
      → rounds_left l worlds len r n < suc k
      → All Located (l ∷ worlds)
      → size ≤ len - n
      → Ends len (after_read next l worlds len r n p size wanted)
  unfolding after_read rounds_left before
  after_read-Ends l worlds r n p size wanted at few a fits =
      let moved = record r { next = some (record { base = p.base; at = p.at + size }) } in
      let few' : (len - n) + later p.base (segments l) + ahead worlds + stale l r.hw < suc k =
        rw at at few in
      elim (Bool-cases (n + size == len)) [
        | inl full ↦ rw full (ground (arith, full))
        | inr part ↦ elim (Bool-cases (ltb size wanted)) [
          | inl short ↦
              let on =
                move_on-Ends l worlds moved (n + size) (record { base = p.base; at = p.at + size })
                  refl (omega (arith, few')) a in
              elim (Bool-cases (size == 0)) [
                | inl none_read ↦ rw (part, short, none_read) on
                | inr some_read ↦ rw (part, short, some_read) on
              ]
          | inr enough ↦ elim (Bool-cases (size == 0)) [
            | inl none_read ↦
                rw (part, enough, none_read)
                  (synced-Ends l worlds moved (n + size) (omega (arith, few')) a)
            | inr some_read ↦
                rw (part, enough, some_read)
                  (goes l worlds moved (n + size) (ground (arith, few', fits, some_read)) a)
          ]
        ]
      ]

  read_at-Ends :
      (l : Log) (worlds : List Log) (r : Committed) (n : ℕ) (p : Place) (o : Option ℕ)
      (s : Option Segment)
      → r.next ≡ some p
      → rounds_left l worlds len r n < suc k
      → All Located (l ∷ worlds)
      → ((lim : ℕ) → o ≡ some lim → lim ≤ len - n)
      → Ends len (read_at next l worlds len r n p o s)
  unfolding read_at smaller
  read_at-Ends l worlds r n p none s at few a left = tt
  read_at-Ends l worlds r n p (some lim) none at few a left = tt
  read_at-Ends l worlds r n p (some lim) (some s) at few a left = elim (Bool-cases (ltb lim n)) [
    | inl over ↦ rw over tt
    | inr fits ↦ elim (Option-cases (read_error s)) [
      | inr (e, bad) ↦ rw (fits, bad) tt
      | inl good ↦
          let at_most = left lim refl in
          let size : smaller (lim - n) (s.position - p.at) ≤ len - n = ground (arith, at_most) in
          rw (fits, good)
            (after_read-Ends l worlds r n p (smaller (lim - n) (s.position - p.at)) (lim - n) at few
              a size)
    ]
  ]

-- As many rounds as there are bytes to read, segments behind the reader's and logs to come are enough.
read_loop-Ends :
    (k len : ℕ) (l : Log) (worlds : List Log) (r : Committed) (n : ℕ)
    → rounds_left l worlds len r n < k
    → All Located (l ∷ worlds)
    → Ends len (read_loop k l worlds len r n)
unfolding read_loop
read_loop-Ends zero len l worlds r n few a = absurd (omega (arith, few))
read_loop-Ends (suc k) len l worlds r n few a = elim (Option-cases r.next) [
  | inl nil ↦ rw nil (unfold round in tt)
  | inr (p, at) ↦
      let next : Next = λ l' worlds' r' n'. read_loop k l' worlds' len r' n' in
      subst (λ o. Ends len (round next l worlds len r n o)) (sym at)
        (unfold round in
          read_at-Ends len k next (read_loop-Ends k len) l worlds r n p (room r.limit p (len - n))
            (held (segments l) p.base) at few a (room-le r.limit p (len - n)))
]

resume-Ends :
    (k len : ℕ) (l : Log) (worlds : List Log) (r : Committed) (q : Place) (o : Result Place)
    → len + ahead (l ∷ worlds) < k
    → All Located (l ∷ worlds)
    → Ends len (resume k l worlds len r q o)
unfolding resume rounds_left ahead
resume-Ends k len l worlds r q (error e) few a = tt
resume-Ends k len l worlds r q (ok p) few a =
    let now = stale_self l in
    let at_most = before-length (some p) (segments l) in
    read_loop-Ends k len l worlds (record { next = some p; limit = some q; hw = l.hw }) 0
      (omega (arith, few, now, at_most)) a

woken-Ends :
    (k len : ℕ) (worlds : List Log) (r : Committed)
    → len + ahead worlds < k
    → All Located worlds
    → Ends len (woken k len r (wait_for_change r.hw worlds))
unfolding woken with_limit
woken-Ends k len worlds r few a = elim (Option-cases (wait_for_change r.hw worlds)) [
  | inl closed ↦ rw closed tt
  | inr ((l, rest), found) ↦
      let (fewer, located) = wait_for_change-ahead r.hw worlds l rest found a in
      let (q, at) = located.0 in
      rw (found, at)
        (resume-Ends k len l rest r q
          (start_at (r.hw +ℤ pos 1) (find_segment (segments l) (r.hw +ℤ pos 1)))
          (omega (arith, few, fewer)) located)
]

-- A read of committed messages ends, and returns as many bytes as it was asked for unless it fails or panics,
-- where each log that the reader finds has the message at its high watermark. As many rounds of the
-- loop as the bytes asked for, the segments of the logs and the logs are enough.
pub read-Ends :
    (k len : ℕ) (l : Log) (worlds : List Log) (r : Committed)
    → len + ahead (l ∷ worlds) < k
    → All Located (l ∷ worlds)
    → Ends len (read k l worlds len r)
unfolding read read_from rounds_left ahead stale
read-Ends k len l worlds r few a = elim (Option-cases r.next) [
  | inl nil ↦
      subst (λ o. Ends len (read_from k l worlds len r o)) (sym nil)
        (woken-Ends k len (l ∷ worlds) r few a)
  | inr (p, at) ↦
      let at_most = before-length r.next (segments l) in
      subst (λ o. Ends len (read_from k l worlds len r o)) (sym at)
        (read_loop-Ends k len l worlds r 0 (ground (arith, few, at_most)) a)
]
