-- ===== src/Partition/Queue.antt =====
-- The commit queue of server/partition.go: acks that wait until their messages are committed. The
-- queue is github.com/Workiva/go-datastructures/queue, which is not in the repository.
use liftbridge.Common.{ℤ, Bool, List, [], ◌∷◌, ◌++◌, ◌≡◌, Option, some, if◌then◌else◌}

-- `client.AckPolicy`.
pub data Policy : Type 0 where
  leader all none_wanted : Policy

-- `client.Ack`: what the partition reads of it.
pub record Ack : Type 0 where
  pub offset : ℤ
  pub policy : Policy
  pub has_inbox : Bool

abbrev pub take_while : (Ack → Bool) → List Ack → List Ack
take_while f [] = []
take_while f (a ∷ acks) = let rest = take_while f acks in if f a then a ∷ rest else []

abbrev pub drop_while : (Ack → Bool) → List Ack → List Ack
drop_while f [] = []
drop_while f (a ∷ acks) = let rest = drop_while f acks in if f a then rest else a ∷ acks

-- `New`, `Dispose`, `Put` and `TakeUntil`; none is the error that the queue is disposed.
pub record QueueOps (Q : Type 0) : Type 0 where
  pub fresh : Q
  pub dispose : Q → Q
  pub put : Q → Ack → Option Q
  pub take_until : Q → (Ack → Bool) → Option (List Ack × Q)

-- What is documented of them, for a queue that holds some acks.
pub record QueueLaws {Q : Type 0} (ops : QueueOps Q) (Holds : Q → List Ack → Type 0) : Type 0 where
  pub starts : Holds ops.fresh []
  pub puts :
      (q : Q) (acks : List Ack) (a : Ack)
      → Holds q acks
      → (q' : Q) × (ops.put q a ≡ some q') × Holds q' (acks ++ a ∷ [])
  pub takes :
      (q : Q) (acks : List Ack) (f : Ack → Bool)
      → Holds q acks
      → (q' : Q) × (ops.take_until q f ≡ some (take_while f acks, q'))
        × Holds q' (drop_while f acks)
