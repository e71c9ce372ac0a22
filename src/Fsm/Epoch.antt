-- ===== src/Fsm/Epoch.antt =====
-- Epochs as guards against an operation that is applied again.
use liftbridge.Common.{
  ℕ, ◌≤◌, ◌<◌, ◌≡◌, refl, ◌⊎◌, inl, inr, true, ◌&&◌, List, Option, none, some, arith, ◌==◌, leb,
  leb→le, Bool-cases,
}
use liftbridge.Partition.Queue.{QueueOps}
use liftbridge.Partition.{Partition, remove_from_isr, add_to_isr}
use liftbridge.Fsm.{
  Entry, Op, shrink_isr, expand_isr, applied, get_partition, put_partition, set_epoch, apply_to,
  apply,
}
use liftbridge.Fsm.Store.{get-put, get-put_other}

module _ {Q : Type 0} (ops : QueueOps Q) (min_isr : ℕ) where
  -- The same partition at an epoch that is no lower, or none.
  abbrev pub Advances : Option (Partition Q) → Option (Partition Q) → Type 0
  Advances none none = Unit {0}
  Advances none (some p') = ⊥
  Advances (some p) none = ⊥
  Advances (some p) (some p') = p.epoch ≤ p'.epoch

  Advances-refl : (o : Option (Partition Q)) → Advances o o
  Advances-refl none = tt
  Advances-refl (some p) = omega arith

  -- What a change does that is not refused: nothing, or it puts a partition at the epoch.
  pub record IsChange (es es' : List (Entry Q)) (stream id epoch : ℕ) : Type 0 where
    pub old : Partition Q
    pub found : get_partition stream id es ≡ some old
    pub change :
        ((es' ≡ es) × (epoch ≤ old.epoch))
        ⊎ ((old.epoch < epoch)
            × ((p : Partition Q) × (p.epoch ≡ epoch) × (es' ≡ put_partition stream id p es)))

  set_epoch-put :
      (es es' : List (Entry Q)) (stream id epoch : ℕ) (o : Option (Partition Q))
      → set_epoch ops min_isr es stream id epoch o ≡ applied es'
      → (p : Partition Q) × (p.epoch ≡ epoch) × (es' ≡ put_partition stream id p es)
  unfolding set_epoch
  set_epoch-put es es' stream id epoch none h = cc
  set_epoch-put es es' stream id epoch (some p) h = (record p { epoch = epoch }, refl, cc)

  apply_to-IsChange :
      (es es' : List (Entry Q)) (stream id epoch : ℕ) (change : Partition Q → Option (Partition Q))
      (o : Option (Partition Q))
      → get_partition stream id es ≡ o
      → apply_to ops min_isr es stream id epoch change o ≡ applied es'
      → IsChange es es' stream id epoch
  unfolding apply_to
  apply_to-IsChange es es' stream id epoch change none found h = cc
  apply_to-IsChange es es' stream id epoch change (some p) found h =
      elim (Bool-cases (leb epoch p.epoch)) [
        | inl stale ↦
            let e : applied es ≡ applied es' = simp stale at h in
            record { old = p; found = found; change = inl (cc, leb→le epoch p.epoch stale) }
        | inr fresh ↦ record {
          old = p;
          found = found;
          change = inr (
            ground (arith, fresh),
            set_epoch-put es es' stream id epoch (change p) (simp fresh at h),
          );
        }
      ]

  IsChange-Advances :
      (es es' : List (Entry Q)) (stream id epoch stream' id' : ℕ)
      → IsChange es es' stream id epoch
      → Advances (get_partition stream' id' es) (get_partition stream' id' es')
  IsChange-Advances es es' stream id epoch stream' id' c = elim c.change [
    | inl (same, stale) ↦ rw same (Advances-refl (get_partition stream' id' es))
    | inr (fresh, (p, at, put)) ↦ elim (Bool-cases (stream' == stream && id' == id)) [
      | inl here ↦
          let a : stream' ≡ stream = ground (arith, here) in
          let b : id' ≡ id = ground (arith, here) in
          rw (a, b, put, c.found, get-put stream id p c.old es c.found) (omega (arith, fresh, at))
      | inr other ↦
          rw (put, get-put_other stream id stream' id' p es other)
            (Advances-refl (get_partition stream' id' es))
    ]
  ]

  again :
      (es es' : List (Entry Q)) (stream id epoch : ℕ) (change : Partition Q → Option (Partition Q))
      → IsChange es es' stream id epoch
      → apply_to ops min_isr es' stream id epoch change (get_partition stream id es') ≡ applied es'
  unfolding apply_to
  again es es' stream id epoch change c = elim c.change [
    | inl (same, stale) ↦
        let at : get_partition stream id es' ≡ some c.old = rw same c.found in
        let skip : leb epoch c.old.epoch ≡ true = ground (arith, stale) in
        rw (at, apply_to, skip) refl
    | inr (fresh, (p, reached, put)) ↦
        let at : get_partition stream id es' ≡ some p =
          rw put (get-put stream id p c.old es c.found) in
        let skip : leb epoch p.epoch ≡ true = ground (arith, reached) in
        rw (at, apply_to, skip) refl
  ]

  -- An operation that was applied can be applied again at the same index, as it is when the log is
  -- replayed, and changes nothing then.
  pub apply_again :
      (es es' : List (Entry Q)) (op : Op) (index : ℕ)
      → apply ops min_isr es op index ≡ applied es'
      → apply ops min_isr es' op index ≡ applied es'
  unfolding apply
  apply_again es es' (shrink_isr stream id replica) index h =
      again es es' stream id index (λ p. remove_from_isr ops min_isr p replica)
        (apply_to-IsChange es es' stream id index _ (get_partition stream id es) refl h)
  apply_again es es' (expand_isr stream id replica) index h =
      again es es' stream id index (λ p. add_to_isr ops min_isr p replica)
        (apply_to-IsChange es es' stream id index _ (get_partition stream id es) refl h)

  -- No operation that is applied lowers the epoch of any partition, or adds or removes one.
  pub apply-Advances :
      (es es' : List (Entry Q)) (op : Op) (index stream' id' : ℕ)
      → apply ops min_isr es op index ≡ applied es'
      → Advances (get_partition stream' id' es) (get_partition stream' id' es')
  unfolding apply
  apply-Advances es es' (shrink_isr stream id replica) index stream' id' h =
      IsChange-Advances es es' stream id index stream' id'
        (apply_to-IsChange es es' stream id index _ (get_partition stream id es) refl h)
  apply-Advances es es' (expand_isr stream id replica) index stream' id' h =
      IsChange-Advances es es' stream id index stream' id'
        (apply_to-IsChange es es' stream id index _ (get_partition stream id es) refl h)
