-- ===== src/Metadata/Election.antt =====
-- What it takes to choose a new leader, and what the operation that is proposed changes.
use liftbridge.Common.{
  ℕ, ◌-◌, ◌/◌, ◌<◌, ◌≡◌, ◌≢◌, refl, subst, ap, inl, inr, true, false, ◌&&◌, ◌||◌, not, List, [],
  ◌∷◌, map, Option, none, some, arith, ltb, leb, ◌==◌, keep, keep_hit, keep_miss, length,
  Bool-cases,
}
use liftbridge.Segment.{contains}
use liftbridge.Partition.{Partition, Replica}
use liftbridge.Fsm.{Entry, get_partition}
use liftbridge.Metadata.Leaders.{
  LeaderRequest, ChangeLeader, elects, report_of, insert, add_witness, candidates, elect,
  elect_from, put_report, get_report, verdict, report_on, report_leader,
}

abbrev pub ids : List Replica → List ℕ
ids rs = map (λ (r : Replica). r.id) rs

-- A choice is one of what there is to choose from.
abbrev pub IsChoice : (ℕ → List ℕ → ℕ) → Type 0
IsChoice choose = (c : ℕ) (cs : List ℕ) → contains (choose c cs) (c ∷ cs) ≡ true

elect_from-IsChoice :
    (choose : ℕ → List ℕ → ℕ) (stream : ℕ) (cs : List ℕ) (op : ChangeLeader)
    → IsChoice choose
    → elect_from choose stream cs ≡ some op
    → (contains op.leader cs ≡ true) × (op.id ≡ 0) × (op.stream ≡ stream)
unfolding elect_from
elect_from-IsChoice choose stream [] op c h = cc
elect_from-IsChoice choose stream (d ∷ ds) op c h =
    let e : record { stream = stream; leader = choose d ds; id = 0 } ≡ op = cc in
    subst
      (λ (o : ChangeLeader). (contains o.leader (d ∷ ds) ≡ true) × (o.id ≡ 0) × (o.stream ≡ stream))
      e (c d ds, refl, refl)

contains-tail : (id r : ℕ) (rs : List ℕ) → contains id rs ≡ true → contains id (r ∷ rs) ≡ true
unfolding contains
contains-tail id r rs h = elim (Bool-cases (r == id)) [
  | inl hit ↦ simp hit refl
  | inr miss ↦ simp (miss, h) refl
]

-- What is left of a list without one number.
contains-candidates :
    (self id : ℕ) (rs : List ℕ)
    → contains id (keep (λ r. not (r == self)) rs) ≡ true
    → (contains id rs ≡ true) × (id ≢ self)
unfolding contains
contains-candidates self id [] h = cc
contains-candidates self id (r ∷ rs) h = elim (Bool-cases (r == self)) [
  | inl me ↦
      let rest = contains-candidates self id rs (
        subst (λ xs. contains id xs ≡ true) (keep_miss (λ r'. not (r' == self)) r rs (ap not me))
          h) in
      (contains-tail id r rs rest.0, rest.1)
  | inr other ↦
      let k =
        subst (λ xs. contains id xs ≡ true) (keep_hit (λ r'. not (r' == self)) r rs (ap not other))
          h in
      elim (Bool-cases (r == id)) [
        | inl hit ↦ (simp hit refl, ground (arith, hit, other))
        | inr miss ↦
            let rest = contains-candidates self id rs (simp miss at k) in
            (contains-tail id r rs rest.0, rest.1)
      ]
]

-- No number stands twice.
abbrev pub Distinct : List ℕ → Type 0
Distinct [] = Unit {0}
Distinct (x ∷ xs) = (contains x xs ≡ false) × Distinct xs

contains-insert :
    (x : ℕ) (xs : List ℕ) (id : ℕ) → contains id (insert x xs) ≡ (x == id || contains id xs)
contains-insert x xs id = elim (Bool-cases (contains x xs)) [
  | inl there ↦ elim (Bool-cases (x == id)) [
    | inl same ↦
        let e : x ≡ id = ground (arith, same) in
        rw (there, same) (subst (λ i. contains i xs ≡ true) e there)
    | inr other ↦ rw (there, other) refl
  ]
  | inr new ↦ rw new (unfold contains in refl)
]

module _ {Q : Type 0} where
  abbrev pub reported_before : List (Entry Q) → ℕ → ℕ → List ℕ
  reported_before es stream id = (report_of (get_report stream id es)).witnesses

  -- An operation that the metadata leader proposes: for a partition that exists, against the leader
  -- that it has in its epoch, with a leader from the rest of the in-sync set.
  pub record IsElection (req : LeaderRequest) (es es' : List (Entry Q)) (op : ChangeLeader)
      : Type 0 where
    pub p : Partition Q
    pub found : get_partition req.stream req.id es ≡ some p
    pub same_leader : req.leader ≡ p.leader_id
    pub same_epoch : req.leader_epoch ≡ p.leader_epoch
    pub in_sync : contains op.leader (ids p.isr) ≡ true
    pub other : op.leader ≢ p.leader_id
    -- The replicas that have reported: those that had before and the one that does now.
    pub witnesses : List ℕ
    pub reporters :
        (id : ℕ)
        → contains id witnesses
          ≡ (req.replica == id || contains id (reported_before es req.stream req.id))
    pub quorum : (length p.isr - 1) / 2 < length witnesses
    pub reported :
        es'
        ≡ put_report req.stream req.id
            (some (record { witnesses = witnesses; timer_runs = false }))
            es

  elect-IsChoice :
      (choose : ℕ → List ℕ → ℕ) (stream : ℕ) (p : Partition Q) (op : ChangeLeader)
      → IsChoice choose
      → elect choose stream p ≡ some op
      → (contains op.leader (candidates p) ≡ true) × (op.id ≡ 0) × (op.stream ≡ stream)
  unfolding elect candidates
  elect-IsChoice choose stream p op c h = elim (Bool-cases (leb (length p.isr) 1)) [
    | inl alone ↦ cc (simp alone at h)
    | inr others ↦ elect_from-IsChoice choose stream (candidates p) op c (simp others at h)
  ]

  verdict-elects :
      (es es' : List (Entry Q)) (o : Option ChangeLeader) (op : ChangeLeader)
      → verdict es o ≡ elects es' op
      → (es' ≡ es) × (o ≡ some op)
  unfolding verdict
  verdict-elects es es' none op h = cc
  verdict-elects es es' (some o) op h = (cc, cc)

  report_on-IsElection :
      (choose : ℕ → List ℕ → ℕ) (req : LeaderRequest) (es es' : List (Entry Q)) (op : ChangeLeader)
      (o : Option (Partition Q))
      → IsChoice choose
      → get_partition req.stream req.id es ≡ o
      → report_on choose req es o ≡ elects es' op
      → (e : IsElection req es es' op) × (op.id ≡ 0)
        × (op.stream ≡ req.stream)
        × (e.witnesses ≡ insert req.replica (reported_before es req.stream req.id))
  unfolding report_on add_witness candidates put_report
  report_on-IsElection choose req es es' op none c found h = cc
  report_on-IsElection choose req es es' op (some p) c found h =
      let witnesses = insert req.replica (report_of (get_report req.stream req.id es)).witnesses in
      elim (Bool-cases (req.leader == p.leader_id && req.leader_epoch == p.leader_epoch)) [
        | inl same ↦ elim (Bool-cases (ltb ((length p.isr - 1) / 2) (length witnesses))) [
          | inl quorum ↦
              let v =
                verdict-elects _ es' (elect choose req.stream p) op (simp (same, quorum) at h) in
              let chosen = elect-IsChoice choose req.stream p op c v.1 in
              let one = contains-candidates p.leader_id op.leader (ids p.isr) chosen.0 in
              (
                record {
                  p = p;
                  found = found;
                  same_leader = ground (arith, same);
                  same_epoch = ground (arith, same);
                  in_sync = one.0;
                  other = one.1;
                  witnesses = witnesses;
                  reporters = contains-insert req.replica _;
                  quorum = ground (arith, quorum);
                  reported = v.0;
                },
                chosen.1,
                chosen.2,
                refl,
              )
          | inr few ↦ cc (simp (same, few) at h)
        ]
        | inr stale ↦ cc (simp stale at h)
      ]

  pub report_leader-IsElection :
      (choose : ℕ → List ℕ → ℕ) (req : LeaderRequest) (es es' : List (Entry Q)) (op : ChangeLeader)
      → IsChoice choose
      → report_leader choose req es ≡ elects es' op
      → IsElection req es es' op
  unfolding report_leader
  report_leader-IsElection choose req es es' op c h =
      (report_on-IsElection choose req es es' op (get_partition req.stream req.id es) c refl h).0

  -- An election in which no replica was counted twice.
  pub record IsFair (req : LeaderRequest) (es es' : List (Entry Q)) (op : ChangeLeader)
      : Type 0 where
    pub election : IsElection req es es' op
    pub distinct : Distinct (election.witnesses)

  -- The operation names the stream, and the partition 0.
  pub report_leader-names :
      (choose : ℕ → List ℕ → ℕ) (req : LeaderRequest) (es es' : List (Entry Q)) (op : ChangeLeader)
      → IsChoice choose
      → report_leader choose req es ≡ elects es' op
      → (op.id ≡ 0) × (op.stream ≡ req.stream)
  unfolding report_leader
  report_leader-names choose req es es' op c h =
      let r =
        report_on-IsElection choose req es es' op (get_partition req.stream req.id es) c refl h in
      (r.1, r.2)
