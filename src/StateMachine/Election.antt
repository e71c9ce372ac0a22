-- ===== src/StateMachine/Election.antt =====
-- What becomes of a proposed leader when the state machine applies the operation.
use liftbridge.Common.{
  ℕ, ◌≡◌, ◌≢◌, refl, ap, ◌∙◌, inl, inr, Bool, false, ◌&&◌, List, [], ◌∷◌, Option, some, arith, leb,
  ◌==◌, Bool-cases, Option-cases,
}
use liftbridge.Partition.Queue.{QueueOps}
use liftbridge.Partition.{Partition}
use liftbridge.Partition.Lifecycle.{Failure}
use liftbridge.Fsm.{Entry, Report, is_at, get_partition, put_partition}
use liftbridge.Fsm.Store.{get-put_other}
use liftbridge.Metadata.{Metadata, World, run_found, run_on}
use liftbridge.Metadata.Leaders.{LeaderRequest, ChangeLeader, elects, put_report, report_leader}
use liftbridge.Metadata.Election.{IsChoice, report_leader-IsElection, report_leader-names}
use liftbridge.StateMachine.{change_leader, lead_at, answered, apply_change_leader, apply}

module _ {Q : Type 0} where
  get-put_report :
      (stream id stream' id' : ℕ) (r : Option Report) (es : List (Entry Q))
      → get_partition stream id (put_report stream' id' r es) ≡ get_partition stream id es
  unfolding get_partition put_report
  get-put_report stream id stream' id' r [] = refl
  get-put_report stream id stream' id' r (e ∷ es) =
      let rest = get-put_report stream id stream' id' r es in
      elim (Bool-cases (is_at stream' id' e)) [
        | inl there ↦ elim (Bool-cases (is_at stream id e)) [
          | inl here ↦ simp (there, here) refl
          | inr miss ↦ simp (there, miss) rest
        ]
        | inr not_there ↦ elim (Bool-cases (is_at stream id e)) [
          | inl here ↦ simp (not_there, here) refl
          | inr miss ↦ simp (not_there, miss) rest
        ]
      ]

  pub run_on-found :
      (f : Partition Q → Partition Q × Option Failure) (stream id : ℕ) (es : List (Entry Q))
      (p : Partition Q)
      → get_partition stream id es ≡ some p
      → run_on f stream id es ≡ (put_partition stream id (f p).0 es, (f p).1)
  unfolding run_on
  run_on-found f stream id es p found = rw (found, run_found) refl

  module _ (ops : QueueOps Q) (min_isr : ℕ) (w : World Q) where
    change_leader_other :
        (m : Metadata Q) (stream leader id epoch id' : ℕ) (recovered : Bool)
        → id' ≢ id
        → get_partition stream id'
            (apply ops min_isr w m (change_leader stream leader id) epoch recovered).0.entries
          ≡ get_partition stream id' m.entries
    unfolding apply apply_change_leader answered
    change_leader_other m stream leader id epoch id' recovered other =
        elim (Option-cases (get_partition stream id m.entries)) [
          | inl missing ↦ rw (missing, apply_change_leader) refl
          | inr (p, found) ↦ elim (Bool-cases (leb epoch p.epoch)) [
            | inl stale ↦ simp (found, stale) refl
            | inr fresh ↦
                let miss : (stream == stream && id' == id) ≡ false = ground (arith, other) in
                simp (found, fresh)
                  (get-put_other stream id stream id'
                    (lead_at ops min_isr w stream id leader epoch p).0 m.entries miss)
          ]
        ]

    -- When the metadata leader proposes a new leader for a partition other than the first of its
    -- stream, applying the operation leaves that partition, with its leader, as it is.
    pub election_misses :
        (choose : ℕ → List ℕ → ℕ) (req : LeaderRequest) (m : Metadata Q) (es : List (Entry Q))
        (op : ChangeLeader) (index : ℕ) (recovered : Bool)
        → IsChoice choose
        → report_leader choose req m.entries ≡ elects es op
        → req.id ≢ 0
        → get_partition req.stream req.id
            (apply ops min_isr w
              (record m { entries = es })
              (change_leader op.stream op.leader op.id)
              index
              recovered).0.entries
          ≡ get_partition req.stream req.id m.entries
    election_misses choose req m es op index recovered c h other =
        let named = report_leader-names choose req m.entries es op c h in
        let election = report_leader-IsElection choose req m.entries es op c h in
        rw (named.0, named.1)
          (change_leader_other (record m { entries = es }) req.stream op.leader 0 index req.id
              recovered other
            ∙ ap (get_partition req.stream req.id) election.reported
            ∙ get-put_report req.stream req.id req.stream req.id _ m.entries)
