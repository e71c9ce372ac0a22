-- ===== src/StateMachine/Forget.antt =====
-- A change of an in-sync set does not reach the snapshots.
use liftbridge.Common.{
  ℕ, ◌<◌, ◌≡◌, refl, ap, ◌∙◌, inl, inr, Bool, true, ◌&&◌, List, [], ◌∷◌, map, Option, none, some,
  ◌==◌, if◌then◌else◌, Bool-cases,
}
use liftbridge.Segment.{contains}
use liftbridge.Partition.Queue.{QueueOps}
use liftbridge.Partition.{Partition, find_replica}
use liftbridge.Fsm.{Entry, is_at, get_partition, put_partition, shrink_isr}
use liftbridge.Fsm.Store.{get-put}
use liftbridge.Fsm.Shrink.{shrink-IsShrunk}
use liftbridge.Metadata.{Metadata, World}
use liftbridge.StateMachine.{
  Stored, isr_change, accepted, proto_of, stored, snapshot, set_entries, apply,
}

-- The in-sync set of a partition in a snapshot.
abbrev pub find_isr : ℕ → ℕ → List Stored → Option (List ℕ)
find_isr stream id [] = none
find_isr stream id (s ∷ ss) =
    if s.stream == stream && s.id == id then some s.proto.isr else find_isr stream id ss

module _ {Q : Type 0} where
  stored_isr_of : Option (Partition Q) → Option (List ℕ)
  stored_isr_of none = none
  stored_isr_of (some p) = some p.stored_isr

  find_isr-stored :
      (stream id : ℕ) (p : Partition Q) (es : List (Entry Q))
      → get_partition stream id es ≡ some p
      → find_isr stream id (map stored es) ≡ some p.stored_isr
  unfolding get_partition proto_of stored_isr_of
  find_isr-stored stream id p [] h = cc
  find_isr-stored stream id p (e ∷ es) h = elim (Bool-cases (is_at stream id e)) [
    | inl here ↦
        let same : some e.part ≡ some p = simp here at h in simp here (ap stored_isr_of same)
    | inr later ↦ simp later (find_isr-stored stream id p es (simp later at h))
  ]

  -- A replica that the replicated log removes from the in-sync set of a partition is gone from the
  -- partition, but a snapshot that is taken then still has the in-sync set with which the partition
  -- was made.
  pub shrink_forgotten :
      (ops : QueueOps Q) (min_isr : ℕ) (w : World Q) (m : Metadata Q) (stream id replica index : ℕ)
      (recovered : Bool) (p : Partition Q)
      → get_partition stream id m.entries ≡ some p
      → p.epoch < index
      → contains replica p.replicas ≡ true
      → let r = apply ops min_isr w m (isr_change (shrink_isr stream id replica)) index recovered in
        (p' : Partition Q) × (r.1 ≡ accepted)
        × (get_partition stream id r.0.entries ≡ some p')
        × (find_replica replica p'.isr ≡ none)
        × (find_isr stream id (snapshot r.0) ≡ some p.stored_isr)
  unfolding apply set_entries snapshot
  shrink_forgotten ops min_isr w m stream id replica index recovered p found newer member =
      let shrunk =
        shrink-IsShrunk ops min_isr m.entries stream id replica index p found newer member in
      let here = get-put stream id shrunk.0 p m.entries found in
      rw shrunk.2 (
        shrunk.0,
        refl,
        here,
        shrunk.1.gone,
        find_isr-stored stream id shrunk.0 (put_partition stream id shrunk.0 m.entries) here
            ∙ ap some shrunk.1.same_stored,
      )
