-- ===== src/Reader/Limit.antt =====
-- Where the limit of a reader comes from: it is the one that it had, or the end of the high watermark in
-- a log that it has found since.
use liftbridge.Common.{
  ℕ, zero, suc, ◌+◌, ◌-◌, ◌≡◌, refl, sym, subst, inl, inr, pos, ◌+ℤ◌, eqb_ℤ, ◌&&◌, not, List, [],
  ◌∷◌, Option, none, some, ltb, ◌==◌, Bool-cases, Option-cases, All,
}
use liftbridge.Segment.{Segment, read_error}
use liftbridge.Log.{Log, segments}
use liftbridge.Reader.{
  Result, ok, error, Place, Committed, Outcome, done, failed, panicked, out_of_rounds,
  find_segment_by_base_offset, get_hw_pos, wait_for_change, held, smaller, room, Next, move_on,
  relimit, synced, after_read, read_at, round, read_loop, read_from, read,
}

module _ (P : Option Place → Type 0) where
  -- The limit of the reader that a read leaves.
  abbrev pub LimitIs : Outcome → Type 0
  LimitIs (done r n) = P r.limit
  LimitIs (failed r n e) = P r.limit
  LimitIs panicked = Unit
  LimitIs out_of_rounds = Unit

  abbrev pub Gives : Log → Type 0
  Gives l = (q : Place) → get_hw_pos (segments l) l.hw ≡ ok q → P (some q)

  abbrev GoesOn : Next → Type 0
  GoesOn next =
      (l : Log) (worlds : List Log) (r : Committed) (n : ℕ)
      → P r.limit
      → All Gives (l ∷ worlds)
      → LimitIs (next l worlds r n)

  module _ (next : Next) (goes : GoesOn next) where
    relimit-LimitIs :
        (l : Log) (worlds : List Log) (r : Committed) (n : ℕ) (o : Result Place)
        → P r.limit
        → All Gives (l ∷ worlds)
        → get_hw_pos (segments l) l.hw ≡ o
        → LimitIs (relimit next l worlds r n o)
    unfolding relimit
    relimit-LimitIs l worlds r n (error e) h a at = h
    relimit-LimitIs l worlds r n (ok q) h a at =
        goes l worlds (record r { hw = l.hw; limit = some q }) n (a.0 q at) a

    synced-LimitIs :
        (r : Committed) (n : ℕ) (worlds : List Log)
        → P r.limit
        → All Gives worlds
        → LimitIs (synced next r n (wait_for_change r.hw worlds))
    unfolding synced wait_for_change
    synced-LimitIs r n [] h a = h
    synced-LimitIs r n (l ∷ worlds) h a = elim (Bool-cases (eqb_ℤ l.hw r.hw)) [
      | inl same ↦ rw same (synced-LimitIs r n worlds h a.1)
      | inr changed ↦
          rw changed (relimit-LimitIs l worlds r n (get_hw_pos (segments l) l.hw) h a refl)
    ]

    move_on-LimitIs :
        (l : Log) (worlds : List Log) (r : Committed) (n : ℕ) (o : Option Segment)
        → P r.limit
        → All Gives (l ∷ worlds)
        → LimitIs (move_on next l worlds r n o)
    unfolding move_on
    move_on-LimitIs l worlds r n none h a = h
    move_on-LimitIs l worlds r n (some s) h a =
        goes l worlds (record r { next = some (record { base = s.base_offset; at = 0 }) }) n h a

    after_read-LimitIs :
        (l : Log) (worlds : List Log) (len : ℕ) (r : Committed) (n : ℕ) (p : Place)
        (size wanted : ℕ)
        → P r.limit
        → All Gives (l ∷ worlds)
        → LimitIs (after_read next l worlds len r n p size wanted)
    unfolding after_read
    after_read-LimitIs l worlds len r n p size wanted h a =
        let moved = record r { next = some (record { base = p.base; at = p.at + size }) } in
        elim (Bool-cases (n + size == len)) [
          | inl full ↦ rw full h
          | inr part ↦ elim (Bool-cases (not (size == 0) && not (ltb size wanted))) [
            | inl more ↦ rw (part, more) (goes l worlds moved (n + size) h a)
            | inr ends ↦ elim (Bool-cases (ltb size wanted)) [
              | inl short ↦
                  let on =
                    move_on-LimitIs l worlds moved (n + size)
                      (find_segment_by_base_offset (segments l) (p.base +ℤ pos 1)) h a in
                  elim (Bool-cases (size == 0)) [
                    | inl none_read ↦ rw (part, short, none_read) on
                    | inr some_read ↦ rw (part, short, some_read) on
                  ]
              | inr whole ↦ elim (Bool-cases (size == 0)) [
                | inl none_read ↦
                    rw (part, whole, none_read) (synced-LimitIs moved (n + size) (l ∷ worlds) h a)
                | inr some_read ↦ rw (part, whole, some_read) (goes l worlds moved (n + size) h a)
              ]
            ]
          ]
        ]

    read_at-LimitIs :
        (l : Log) (worlds : List Log) (len : ℕ) (r : Committed) (n : ℕ) (p : Place) (o : Option ℕ)
        (s : Option Segment)
        → P r.limit
        → All Gives (l ∷ worlds)
        → LimitIs (read_at next l worlds len r n p o s)
    unfolding read_at
    read_at-LimitIs l worlds len r n p none s h a = tt
    read_at-LimitIs l worlds len r n p (some lim) none h a = h
    read_at-LimitIs l worlds len r n p (some lim) (some s) h a = elim (Bool-cases (ltb lim n)) [
      | inl beyond ↦ rw beyond tt
      | inr inside ↦ elim (Option-cases (read_error s)) [
        | inr (e, wrong) ↦ rw (inside, wrong) h
        | inl fine ↦
            rw (inside, fine)
              (after_read-LimitIs l worlds len r n p (smaller (lim - n) (s.position - p.at))
                (lim - n) h a)
      ]
    ]

  read_loop-LimitIs : (k len : ℕ) → GoesOn (λ l worlds r n. read_loop k l worlds len r n)
  unfolding read_loop
  read_loop-LimitIs zero len l worlds r n h a = tt
  read_loop-LimitIs (suc k) len l worlds r n h a = elim (Option-cases r.next) [
    | inl nil ↦ rw nil (unfold round in tt)
    | inr (p, at) ↦
        let next : Next = λ l' worlds' r' n'. read_loop k l' worlds' len r' n' in
        subst (λ o. LimitIs (round next l worlds len r n o)) (sym at)
          (unfold round in
            read_at-LimitIs next (read_loop-LimitIs k len) l worlds len r n p
              (room r.limit p (len - n)) (held (segments l) p.base) h a)
  ]

  pub read-LimitIs :
      (k len : ℕ) (l : Log) (worlds : List Log) (r : Committed) (p : Place)
      → r.next ≡ some p
      → P r.limit
      → All Gives (l ∷ worlds)
      → LimitIs (read k l worlds len r)
  unfolding read read_from
  read-LimitIs k len l worlds r p at h a =
      subst (λ o. LimitIs (read_from k l worlds len r o)) (sym at)
        (read_loop-LimitIs k len l worlds r 0 h a)
