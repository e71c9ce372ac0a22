-- ===== src/Partition/Isr.antt =====
-- The in-sync replicas of a partition.
use liftbridge.Common.{
  ℕ, suc, ◌≤◌, ◌<◌, ◌≡◌, ◌≢◌, refl, sym, subst, ◌↔◌, ◌⊎◌, inl, inr, ℤ, minus_one, ◌≤ℤ◌, ltb_ℤ, Bool,
  true, false, ◌&&◌, not, List, [], ◌∷◌, Option, none, some, arith, ltb, leb, ◌==◌, if◌then◌else◌,
  length, keep_hit, keep_miss, Bool-cases,
}
use liftbridge.Segment.{contains}
use liftbridge.Partition.Queue.{QueueOps}
use liftbridge.Partition.{
  Replica, Partition, update_latest_offset, find_replica, without, store_replica, check_commit,
  after_update, update_found, update_isr_latest_offset, remove_from_isr, add_to_isr,
}

find_replica-id :
    (id : ℕ) (rs : List Replica) (r : Replica) → find_replica id rs ≡ some r → r.id ≡ id
unfolding find_replica
find_replica-id id [] r h = cc
find_replica-id id (x ∷ xs) r h = elim (Bool-cases (x.id == id)) [
  | inl here ↦
      let e : some x ≡ some r = rw (here, find_replica) at h in
      let same : x ≡ r = cc in rw (← same) (ground (arith, here))
  | inr later ↦ find_replica-id id xs r (rw (later, find_replica) at h)
]

pub find_replica-without : (id : ℕ) (rs : List Replica) → find_replica id (without id rs) ≡ none
unfolding find_replica without
find_replica-without id [] = refl
find_replica-without id (x ∷ xs) = elim (Bool-cases (x.id == id)) [
  | inl here ↦
      rw (keep_miss (λ r. not (r.id == id)) x xs (rw here refl)) (find_replica-without id xs)
  | inr other ↦
      rw (keep_hit (λ r. not (r.id == id)) x xs (rw other refl), find_replica, other)
        (find_replica-without id xs)
]

find_replica-without_other :
    (id other : ℕ) (rs : List Replica)
    → other ≢ id
    → find_replica other (without id rs) ≡ find_replica other rs
unfolding find_replica without
find_replica-without_other id other [] ne = refl
find_replica-without_other id other (x ∷ xs) ne = elim (Bool-cases (x.id == id)) [
  | inl here ↦
      let miss : (x.id == other) ≡ false = ground (arith, here) in
      rw (keep_miss (λ r. not (r.id == id)) x xs (rw here refl), miss)
        (find_replica-without_other id other xs ne)
  | inr kept ↦
      rw (keep_hit (λ r. not (r.id == id)) x xs (rw kept refl)) (elim (Bool-cases (x.id == other)) [
        | inl here ↦ rw here refl
        | inr miss ↦ rw miss (find_replica-without_other id other xs ne)
      ])
]

find_replica-without_any :
    (id : ℕ) (rs : List Replica) (other : ℕ)
    → find_replica other (without id rs) ≡ (if other == id then none else find_replica other rs)
find_replica-without_any id rs other = elim (Bool-cases (other == id)) [
  | inl here ↦
      let e : other ≡ id = ground (arith, here) in
      rw here
        (subst (λ i. find_replica i (without id rs) ≡ none) (sym e) (find_replica-without id rs))
  | inr else_ ↦ rw else_ (find_replica-without_other id other rs (ground (arith, else_)))
]

length-without : (id : ℕ) (rs : List Replica) → length (without id rs) ≤ length rs
unfolding without
length-without id [] = omega arith
length-without id (x ∷ xs) = elim (Bool-cases (not (x.id == id))) [
  | inl stays ↦
      rw (keep_hit (λ r. not (r.id == id)) x xs stays) (omega (arith, length-without id xs))
  | inr goes ↦
      rw (keep_miss (λ r. not (r.id == id)) x xs goes) (omega (arith, length-without id xs))
]

-- The same replica, with an offset that is no lower; or none.
abbrev pub Rises : Option Replica → Option Replica → Type 0
Rises none none = Unit {0}
Rises none (some r') = ⊥
Rises (some r) none = ⊥
Rises (some r) (some r') = (r.id ≡ r'.id) × (r.offset ≤ℤ r'.offset)

Rises-refl : (o : Option Replica) → Rises o o
Rises-refl none = tt
Rises-refl (some r) = (refl, omega arith)

find_replica-store :
    (r old : Replica) (rs : List Replica)
    → find_replica r.id rs ≡ some old
    → find_replica r.id (store_replica r rs) ≡ some r
unfolding find_replica store_replica
find_replica-store r old [] h = cc
find_replica-store r old (x ∷ xs) h = elim (Bool-cases (x.id == r.id)) [
  | inl here ↦ let self : (r.id == r.id) ≡ true = ground arith in rw (here, self) refl
  | inr later ↦ rw (later, later) (find_replica-store r old xs (rw (later, find_replica) at h))
]

find_replica-store_other :
    (r : Replica) (id : ℕ) (rs : List Replica)
    → id ≢ r.id
    → find_replica id (store_replica r rs) ≡ find_replica id rs
unfolding find_replica store_replica
find_replica-store_other r id [] ne = refl
find_replica-store_other r id (x ∷ xs) ne = elim (Bool-cases (x.id == r.id)) [
  | inl here ↦
      let a : (r.id == id) ≡ false = ground (arith, here) in
      let b : (x.id == id) ≡ false = ground (arith, here) in
      rw (here, a, b) (find_replica-store_other r id xs ne)
  | inr later ↦ rw later (elim (Bool-cases (x.id == id)) [
    | inl at ↦ rw at refl
    | inr miss ↦ rw miss (find_replica-store_other r id xs ne)
  ])
]

-- The replica of this id has reached the offset.
abbrev pub Reaches : Option Replica → ℤ → Type 0
Reaches none offset = Unit {0}
Reaches (some r) offset = offset ≤ℤ r.offset

update_latest-behind :
    (r : Replica) (offset : ℤ)
    → ltb_ℤ r.offset offset ≡ false
    → update_latest_offset r offset ≡ (r, false)
unfolding update_latest_offset
update_latest-behind r offset h = rw h refl

update_latest-ahead :
    (r : Replica) (offset : ℤ)
    → ltb_ℤ r.offset offset ≡ true
    → update_latest_offset r offset ≡ (record r { offset = offset }, true)
unfolding update_latest_offset
update_latest-ahead r offset h = rw h refl

module _ {Q : Type 0} (ops : QueueOps Q) (min_isr : ℕ) where
  check_commit-isr : (p : Partition Q) → (check_commit ops min_isr p).isr ≡ p.isr
  unfolding check_commit
  check_commit-isr p = elim (Bool-cases (ltb p.commit_checks (length p.replicas))) [
    | inl room ↦ simp room
    | inr full ↦ simp full
  ]

  update_found-Rises :
      (p : Partition Q) (id : ℕ) (offset : ℤ) (o : Option Replica)
      → find_replica id p.isr ≡ o
      → let isr' = (update_found ops min_isr p o offset).isr in
        ((other : ℕ) → Rises (find_replica other p.isr) (find_replica other isr'))
        × Reaches (find_replica id isr') offset
  unfolding update_found after_update
  update_found-Rises p id offset none h = (λ other. Rises-refl (find_replica other p.isr), rw h tt)
  update_found-Rises p id offset (some r) h =
      let same = find_replica-id id p.isr r h in
      elim (Bool-cases (ltb_ℤ r.offset offset)) [
        | inr behind ↦
            rw (update_latest-behind r offset behind)
              ((λ other. Rises-refl (find_replica other p.isr)), rw h (ground (arith, behind)))
        | inl ahead ↦
            let new : Replica = record r { offset = offset } in
            let at : find_replica id (store_replica new p.isr) ≡ some new =
              subst (λ i. find_replica i (store_replica new p.isr) ≡ some new) same
                (find_replica-store new r p.isr
                  (subst (λ i. find_replica i p.isr ≡ some r) (sym same) h)) in
            rw (update_latest-ahead r offset ahead, check_commit-isr)
              (
                (λ other. elim (Bool-cases (other == id)) [
                  | inl here ↦
                      let e : other ≡ id = ground (arith, here) in
                      rw (e, h, at) (refl, ground (arith, ahead))
                  | inr else_ ↦
                      let ne : other ≢ new.id = ground (arith, else_, same) in
                      rw (find_replica-store_other new other p.isr ne)
                        (Rises-refl (find_replica other p.isr))
                ]),
                rw at (omega arith),
              )
      ]

  -- A report of a replica's latest offset never lowers the offset of any replica, adds and removes
  -- none, and if the replica is in sync its offset is at least the one reported.
  pub update_isr_latest_offset_lem :
      (p : Partition Q) (id : ℕ) (offset : ℤ)
      → let isr' = (update_isr_latest_offset ops min_isr p id offset).isr in
        ((other : ℕ) → Rises (find_replica other p.isr) (find_replica other isr'))
        × Reaches (find_replica id isr') offset
  unfolding update_isr_latest_offset
  update_isr_latest_offset_lem p id offset =
      update_found-Rises p id offset (find_replica id p.isr) refl

  -- What the two changes of the in-sync set promise: they are refused exactly for a broker that is
  -- no replica; else the set has the given entry for it, the others are as before, and the flag is
  -- right.
  abbrev pub Changes :
      ℕ → Partition Q → Option Replica → (Partition Q → Type 0) → Option (Partition Q) → Type 0
  Changes id p entry Flag none = contains id p.replicas ≡ false
  Changes id p entry Flag (some p') =
      (contains id p.replicas ≡ true)
      × ((other : ℕ)
          → find_replica other p'.isr ≡ (if other == id then entry else find_replica other p.isr))
      × Flag p'

  -- Below the minimum, as the flag has it, is a fact.
  abbrev pub IsFlagged : Partition Q → Type 0
  IsFlagged p = (p.below_min_isr ≡ false) ⊎ (length p.isr < min_isr)

  check_commit-below :
      (p : Partition Q) → (check_commit ops min_isr p).below_min_isr ≡ p.below_min_isr
  unfolding check_commit
  check_commit-below p = elim (Bool-cases (ltb p.commit_checks (length p.replicas))) [
    | inl room ↦ simp room
    | inr full ↦ simp full
  ]

  shrunk_flag :
      (flag : Bool) (size : ℕ)
      → (flag ≡ false) ⊎ (size < min_isr)
      → ((if not flag && ltb size min_isr then true else flag) ≡ true) ↔ (size < min_isr)
  shrunk_flag true size (inl low) = cc
  shrunk_flag true size (inr few) = ((λ _. few), (λ _. refl))
  shrunk_flag false size h = ground arith

  grown_flag :
      (flag : Bool) (size : ℕ)
      → ((if flag && leb min_isr size then false else flag) ≡ true)
        ↔ ((flag ≡ true) × (size < min_isr))
  grown_flag flag size = ground arith

  -- The removal is refused exactly for a broker that is no replica. Else the broker is not in sync
  -- afterwards, the others are as before, and the flag says exactly whether there are fewer in-sync
  -- replicas than the minimum, if before it was raised only where there were.
  pub remove_from_isr_lem :
      (p : Partition Q) (id : ℕ)
      → IsFlagged p
      → Changes id p none
          (λ p'. (p'.below_min_isr ≡ true) ↔ (length p'.isr < min_isr))
          (remove_from_isr ops min_isr p id)
  unfolding remove_from_isr
  remove_from_isr_lem p id flagged = elim (Bool-cases (contains id p.replicas)) [
    | inr missing ↦ rw missing missing
    | inl known ↦
        let fewer = length-without id p.isr in
        let flag =
          shrunk_flag p.below_min_isr (length (without id p.isr))
            (elim flagged [ inl low ↦ inl low | inr few ↦ inr (omega (arith, few, fewer)) ]) in
        let entries = find_replica-without_any id p.isr in
        rw known (elim (Bool-cases p.is_leading) [
          | inl leads ↦ rw (leads, check_commit-isr, check_commit-below) (known, entries, flag)
          | inr follows ↦ rw follows (known, entries, flag)
        ])
  ]

  -- An addition is refused exactly for a broker that is no replica; else the broker is in sync from
  -- offset -1 on, the others are as before, and the flag is raised afterwards exactly if it was raised
  -- before and there are still fewer in-sync replicas than the minimum.
  pub add_to_isr_lem :
      (p : Partition Q) (id : ℕ)
      → Changes id p
          (some (record { id = id; offset = minus_one }))
          (λ p'. (p'.below_min_isr ≡ true) ↔ ((p.below_min_isr ≡ true) × (length p'.isr < min_isr)))
          (add_to_isr ops min_isr p id)
  unfolding add_to_isr find_replica
  add_to_isr_lem p id = elim (Bool-cases (contains id p.replicas)) [
    | inr missing ↦ rw missing missing
    | inl known ↦
        let self : (id == id) ≡ true = ground arith in
        rw known (
          known,
          (λ other. elim (Bool-cases (other == id)) [
            | inl here ↦
                let hit : (id == other) ≡ true = ground (arith, here) in rw (hit, here) refl
            | inr else_ ↦
                let miss : (id == other) ≡ false = ground (arith, else_) in
                rw (miss, else_) (find_replica-without_other id other p.isr (ground (arith, else_)))
          ]),
          grown_flag p.below_min_isr (suc (length (without id p.isr))),
        )
  ]
