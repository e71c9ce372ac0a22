-- ===== src/Publish/Round.antt =====
-- A round of the loop of a leader: the messages of a batch are in its log and in its commit queue.
use liftbridge.Common.{ℕ, ◌≡◌, ℤ, pos, ◌+ℤ◌, List, [], ◌∷◌, ◌++◌, if◌then◌else◌, last_of}
use liftbridge.Log.{Log, newest_offset}
use liftbridge.Log
use liftbridge.Log.Append.{offsets_from, IsAppended}
use liftbridge.Partition.{Partition, find_replica, is_leader_policy, send_ack}
use liftbridge.Partition.Queue.{Ack, QueueOps, QueueLaws}
use liftbridge.Partition.Isr.{Reaches}
use liftbridge.Publish.{Incoming, ack_of, Processed, processed}

pub zip_acks : List ℤ → List Incoming → List Ack
zip_acks [] is = []
zip_acks (o ∷ os) [] = []
zip_acks (o ∷ os) (i ∷ is) = ack_of o i ∷ zip_acks os is

-- What is acknowledged as soon as it is in the leader's log.
pub sent_at_once : List Ack → List Ack
sent_at_once [] = []
sent_at_once (a ∷ acks) =
    (if is_leader_policy a.policy then send_ack a else []) ++ sent_at_once acks

module _ {Q : Type 0} (ops : QueueOps Q) (min_isr : ℕ) (Holds : Q → List Ack → Type 0)
    (laws : QueueLaws ops Holds) where
  -- The messages of a batch stand in the queue, in their order.
  record IsPending (p p' : Partition Q) (acks : List Ack) : Type 0 where
    queued : Holds p'.queue acks
    same_log : p'.log ≡ p.log
    same_isr : p'.isr ≡ p.isr
    same_self : p'.self ≡ p.self

-- A round that ends well.
abbrev pub Processes : {Q : Type 0} → Processed Q → (Partition Q → List Ack → Type 0) → Type 0
Processes (processed p sent) P = P p sent
Processes other P = ⊥

module _ {Q : Type 0} (ops : QueueOps Q) (min_isr : ℕ) (Holds : Q → List Ack → Type 0)
    (laws : QueueLaws ops Holds) where
  -- What a round does with a batch, once the messages are built (`is`) and sized (`l ∷ ls`).
  pub record IsRound (p : Partition Q) (acks : List Ack) (is : List Incoming) (l : Log.Message)
      (ls : List Log.Message) (p' : Partition Q) (sent : List Ack) : Type 0 where
    pub offsets : List ℤ
    pub stored : IsAppended p.log p'.log (l ∷ ls) offsets
    pub queued : Holds p'.queue (acks ++ zip_acks offsets is)
    pub answered : sent ≡ sent_at_once (zip_acks offsets is)
    pub own : Reaches (find_replica p.self p'.isr) (
        last_of
          (newest_offset p.log +ℤ pos 1)
          (offsets_from (newest_offset p.log +ℤ pos 1 +ℤ pos 1) ls))
