-- ===== src/Partition/Keeps.antt =====
-- What the changes of the in-sync set keep of a partition.
use liftbridge.Common.{
  ℕ, ◌≡◌, refl, subst, inl, inr, ℤ, ltb, Bool, true, false, Option, none, some, length, Bool-cases,
}
use liftbridge.Segment.{contains}
use liftbridge.Partition.Queue.{QueueOps}
use liftbridge.Partition.{
  Replica, Partition, update_latest_offset, find_replica, store_replica, check_commit, after_update,
  update_found, update_isr_latest_offset, remove_from_isr, add_to_isr,
}

module _ {Q : Type 0} (ops : QueueOps Q) (min_isr : ℕ) where
  -- What a step keeps of the log and the queue.
  pub record Keeps (p p' : Partition Q) : Type 0 where
    pub same_log : p'.log ≡ p.log
    pub same_queue : p'.queue ≡ p.queue

  check_commit-Keeps : (p : Partition Q) → Keeps p (check_commit ops min_isr p)
  unfolding check_commit
  check_commit-Keeps p = elim (Bool-cases (ltb p.commit_checks (length p.replicas))) [
    | inl room ↦ simp room (record { same_log = refl; same_queue = refl })
    | inr full ↦ simp full (record { same_log = refl; same_queue = refl })
  ]

  after_update-Keeps :
      (p : Partition Q) (u : Replica × Bool) → Keeps p (after_update ops min_isr p u)
  unfolding after_update
  after_update-Keeps p (r, false) = record { same_log = refl; same_queue = refl }
  after_update-Keeps p (r, true) =
      let h = check_commit-Keeps (record p { isr = store_replica r p.isr }) in
      record { same_log = h.same_log; same_queue = h.same_queue }

  update_found-Keeps :
      (p : Partition Q) (o : Option Replica) (offset : ℤ)
      → Keeps p (update_found ops min_isr p o offset)
  unfolding update_found
  update_found-Keeps p none offset = record { same_log = refl; same_queue = refl }
  update_found-Keeps p (some r) offset = after_update-Keeps p (update_latest_offset r offset)

  pub update_isr_latest_offset-Keeps :
      (p : Partition Q) (id : ℕ) (offset : ℤ)
      → Keeps p (update_isr_latest_offset ops min_isr p id offset)
  unfolding update_isr_latest_offset
  update_isr_latest_offset-Keeps p id offset = update_found-Keeps p (find_replica id p.isr) offset

  -- The same of a change that may be refused.
  abbrev pub KeepsIf : Partition Q → Option (Partition Q) → Type 0
  KeepsIf p none = Unit {0}
  KeepsIf p (some p') = Keeps p p'

  pub accepted :
      (p p' : Partition Q) (o : Option (Partition Q)) → o ≡ some p' → KeepsIf p o → Keeps p p'
  accepted p p' o e h = subst (KeepsIf p) e h

  pub remove_from_isr-Keeps :
      (p : Partition Q) (id : ℕ) → KeepsIf p (remove_from_isr ops min_isr p id)
  unfolding remove_from_isr
  remove_from_isr-Keeps p id = elim (Bool-cases (contains id p.replicas)) [
    | inr missing ↦ rw missing tt
    | inl known ↦ rw known (elim (Bool-cases p.is_leading) [
      | inl leads ↦ rw leads (
          let h = check_commit-Keeps _ in
          record { same_log = h.same_log; same_queue = h.same_queue })
      | inr follows ↦ rw follows (record { same_log = refl; same_queue = refl })
    ])
  ]

  pub add_to_isr-Keeps : (p : Partition Q) (id : ℕ) → KeepsIf p (add_to_isr ops min_isr p id)
  unfolding add_to_isr
  add_to_isr-Keeps p id = elim (Bool-cases (contains id p.replicas)) [
    | inr missing ↦ rw missing tt
    | inl known ↦ rw known (record { same_log = refl; same_queue = refl })
  ]
