-- ===== src/Partition/Pending.antt =====
-- A message that waits in the commit queue.
use liftbridge.Common.{◌≡◌, refl, List, [], ◌∷◌, ◌++◌, some, if◌then◌else◌, ℕ}
use liftbridge.Partition.Queue.{Ack, QueueOps, QueueLaws}
use liftbridge.Partition.{Partition, is_leader_policy, send_ack, put_pending, process_pending}

module _ {Q : Type 0} (ops : QueueOps Q) (min_isr : ℕ) (Holds : Q → List Ack → Type 0)
    (laws : QueueLaws ops Holds) where
  pub process_pending-put :
      (p : Partition Q) (acks : List Ack) (a : Ack)
      → Holds p.queue acks
      → (q : Q) × (process_pending ops min_isr p a
          ≡ some (record p { queue = q }, if is_leader_policy a.policy then send_ack a else []))
        × Holds q (acks ++ a ∷ [])
  unfolding process_pending put_pending
  process_pending-put p acks a h =
      let (q, put, holds) = laws.puts p.queue acks a h in (q, rw put refl, holds)
