-- ===== src/Fsm/Shrink.antt =====
-- A replica that is removed from an in-sync set.
use liftbridge.Common.{
  ℕ, ◌<◌, ◌≡◌, refl, ap, ◌∙◌, inl, inr, true, false, not, ◌&&◌, if◌then◌else◌, ltb, length, List,
  none, some, arith, leb, Bool-cases,
}
use liftbridge.Segment.{contains}
use liftbridge.Partition.Queue.{QueueOps}
use liftbridge.Partition.{Partition, find_replica, without, remove_from_isr, check_commit}
use liftbridge.Partition.Isr.{find_replica-without}
use liftbridge.Fsm.{
  Entry, shrink_isr, applied, get_partition, put_partition, set_epoch, apply_to, apply,
}

module _ {Q : Type 0} (ops : QueueOps Q) (min_isr : ℕ) where
  -- The partition without the replica, whose protobuf still has the in-sync set it was made with.
  pub record IsShrunk (p : Partition Q) (replica : ℕ) (p' : Partition Q) : Type 0 where
    pub gone : find_replica replica p'.isr ≡ none
    pub same_stored : p'.stored_isr ≡ p.stored_isr

  check_commit-same :
      (p : Partition Q)
      → ((check_commit ops min_isr p).isr ≡ p.isr)
        × ((check_commit ops min_isr p).stored_isr ≡ p.stored_isr)
  unfolding check_commit
  check_commit-same p = elim (Bool-cases (ltb p.commit_checks (length p.replicas))) [
    | inl room ↦ simp room (refl, refl)
    | inr full ↦ simp full (refl, refl)
  ]

  remove-IsShrunk :
      (p : Partition Q) (replica : ℕ)
      → contains replica p.replicas ≡ true
      → (p' : Partition Q) × (remove_from_isr ops min_isr p replica ≡ some p')
        × IsShrunk p replica p'
  unfolding remove_from_isr
  remove-IsShrunk p replica h =
      let rest = without replica p.isr in
      let shrunk : Partition Q = record p {
        isr = rest;
        below_min_isr =
            if not p.below_min_isr && ltb (length rest) min_isr then true else p.below_min_isr;
      } in
      let gone = find_replica-without replica p.isr in
      elim (Bool-cases p.is_leading) [
        | inl leads ↦
            let same = check_commit-same shrunk in
            (
              check_commit ops min_isr shrunk,
              simp (h, leads) refl,
              record { gone = ap (find_replica replica) same.0 ∙ gone; same_stored = same.1 },
            )
        | inr follows ↦ (shrunk, simp (h, follows) refl, record { gone = gone; same_stored = refl })
      ]

  pub shrink-IsShrunk :
      (es : List (Entry Q)) (stream id replica index : ℕ) (p : Partition Q)
      → get_partition stream id es ≡ some p
      → p.epoch < index
      → contains replica p.replicas ≡ true
      → (p' : Partition Q) × IsShrunk p replica p'
        × (apply ops min_isr es (shrink_isr stream id replica) index
            ≡ applied (put_partition stream id p' es))
  unfolding apply apply_to set_epoch
  shrink-IsShrunk es stream id replica index p found newer member =
      let removed = remove-IsShrunk p replica member in
      let fresh : leb index p.epoch ≡ false = ground (arith, newer) in
      (
        record removed.0 { epoch = index },
        record { gone = removed.2.gone; same_stored = removed.2.same_stored },
        rw (found, apply_to, fresh, removed.1) refl,
      )
