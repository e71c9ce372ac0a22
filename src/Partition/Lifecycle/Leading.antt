-- ===== src/Partition/Lifecycle/Leading.antt =====
-- A partition that has started to lead, or has failed to.
use liftbridge.Common.{
  ℕ, ◌≡◌, ◌≢◌, refl, sym, subst, ap, ◌∙◌, ◌&&◌, if_hit, if_miss, ◌⊎◌, inl, inr, Bool, true, false,
  not, List, [], ◌∷◌, none, arith, Bool-cases, ◌==◌, keep, keep_hit, keep_miss,
}
use liftbridge.Segment.{contains}
use liftbridge.Epochs.{Disk}
use liftbridge.Partition.Queue.{QueueOps}
use liftbridge.Partition.{Partition, handed, handle_replication_request}
use liftbridge.Partition.Lifecycle.{
  Call, subscribe, subscribe_replication, subscribe_offsets, Answers, call,
  stop_leading_or_following, start_epoch, start_replicating, lead, subscribe_all, become_leader,
}
use liftbridge.Partition.Lifecycle.Ends.{Ends, Any, Ends-Any, try-Ends, call-Ends}

abbrev pub is_other : ℕ → ℕ → Bool
is_other self r = not (r == self)

contains-keep :
    (self id : ℕ) (rs : List ℕ)
    → contains id rs ≡ true
    → (id ≡ self) ⊎ (contains id (keep (is_other self) rs) ≡ true)
unfolding contains
contains-keep self id [] h = cc
contains-keep self id (r ∷ rs) h = elim (Bool-cases (r == self)) [
  | inl me ↦ elim (Bool-cases (r == id)) [
    | inl hit ↦ inl (ground (arith, me, hit))
    | inr miss ↦
        rw (keep_miss (is_other self) r rs (ap not me)) (contains-keep self id rs (simp miss at h))
  ]
  | inr other ↦ rw (keep_hit (is_other self) r rs (ap not other)) (elim (Bool-cases (r == id)) [
    | inl hit ↦ inr (simp hit refl)
    | inr miss ↦ simp miss (contains-keep self id rs (simp miss at h))
  ])
]

module _ {Q : Type 0} (ops : QueueOps Q) (min_isr : ℕ) where
  -- A new commit queue, and a replicator for each other replica.
  abbrev pub IsEquipped : Partition Q → Type 0
  IsEquipped p = (p.queue ≡ ops.fresh) × (p.replicators ≡ keep (is_other p.self) p.replicas)

  module _ (disk : Disk) (ok : Answers) where
    subscribe_all-IsEquipped :
        (p : Partition Q) → IsEquipped p → Ends IsEquipped Any (subscribe_all ops min_isr disk ok p)
    unfolding subscribe_all lead
    subscribe_all-IsEquipped p h =
        let step : (c : Call) (p' : Partition Q)
            → IsEquipped p'
            → Ends IsEquipped Any (call ok c p') =
          (λ c p' k. call-Ends IsEquipped Any ok c p' k tt) in
        try-Ends IsEquipped IsEquipped Any (call ok subscribe p) _ (step subscribe p h) (λ p1 h1.
          try-Ends IsEquipped IsEquipped Any (call ok subscribe_replication p1) _
            (step subscribe_replication p1 h1)
            (λ p2 h2.
              try-Ends IsEquipped IsEquipped Any (call ok subscribe_offsets p2) _
                (step subscribe_offsets p2 h2) (λ p3 h3. h3)))

    become_leader-IsEquipped :
        (epoch : ℕ) (p : Partition Q)
        → Ends IsEquipped Any (become_leader ops min_isr disk ok epoch p)
    unfolding become_leader start_replicating
    become_leader-IsEquipped epoch p =
        try-Ends Any IsEquipped Any (stop_leading_or_following ops min_isr disk ok p) _
          (Ends-Any (stop_leading_or_following ops min_isr disk ok p))
          (λ p1 h1.
            try-Ends Any IsEquipped Any (start_epoch ops min_isr disk ok epoch p1) _
              (Ends-Any (start_epoch ops min_isr disk ok epoch p1))
              (λ p2 h2.
                subscribe_all-IsEquipped (start_replicating ops min_isr disk ok p2) (refl, refl)))

    handed_lem :
        (p : Partition Q) (request_epoch id : ℕ)
        → p.pause ≡ false
        → (request_epoch ≡ 0) ⊎ (request_epoch ≡ p.leader_epoch)
        → contains id p.replicas ≡ true
        → contains id p.replicators ≡ true
        → handle_replication_request ops min_isr p request_epoch id ≡ handed
    unfolding handle_replication_request
    handed_lem p request_epoch id runs same known equipped =
        let good : (not (request_epoch == 0) && not (request_epoch == p.leader_epoch)) ≡ false =
          ground (arith, same) in
        if_miss p.pause _ _ runs
        ∙ if_miss (not (request_epoch == 0) && not (request_epoch == p.leader_epoch)) _ _ good
        ∙ if_miss (not (contains id p.replicas)) _ _ (ap not known)
        ∙ if_hit (contains id p.replicators) _ _ equipped

    -- A partition that has become the leader, and whose replication is not paused, hands the request
    -- of every replica but itself to the replicator of that replica, if the request names the
    -- leader's epoch or none.
    pub become_leader_answers :
        (epoch : ℕ) (p p' : Partition Q) (request_epoch id : ℕ)
        → become_leader ops min_isr disk ok epoch p ≡ (p', none)
        → p'.pause ≡ false
        → (request_epoch ≡ 0) ⊎ (request_epoch ≡ p'.leader_epoch)
        → contains id p'.replicas ≡ true
        → id ≢ p'.self
        → handle_replication_request ops min_isr p' request_epoch id ≡ handed
    become_leader_answers epoch p p' request_epoch id h runs same known other =
        let e : IsEquipped p' = subst (Ends IsEquipped Any) h (become_leader-IsEquipped epoch p) in
        elim (contains-keep p'.self id p'.replicas known) [
          | inl me ↦ absurd (other me)
          | inr found ↦
              handed_lem p' request_epoch id runs same known
                (subst (λ rs. contains id rs ≡ true) (sym e.1) found)
        ]
