-- ===== src/Fsm.antt =====
-- server/fsm.go: the operations of the replicated log on the in-sync sets of partitions, with
-- server/metadata.go's table of partitions as an association list; streams are numbers here. The
-- index of an operation in the Raft log is the epoch of the change.
pub mod Store
pub mod Epoch
pub mod Shrink
mod Tests
use liftbridge.Common.{
  ℕ, Bool, ◌&&◌, List, [], ◌∷◌, map, Option, none, some, leb, ◌==◌, if◌then◌else◌,
}
use liftbridge.Partition.Queue.{QueueOps}
use liftbridge.Partition.{Partition, remove_from_isr, add_to_isr}

-- `leaderReport`: the replicas that reported the leader, and whether the timer runs.
pub record Report : Type 0 where
  pub witnesses : List ℕ
  pub timer_runs : Bool

-- A partition in the table, by its stream and its number, with its leader report.
pub record Entry (Q : Type 0) : Type 0 where
  pub stream : ℕ
  pub id : ℕ
  pub part : Partition Q
  pub report : Option Report

pub data Op : Type 0 where
  -- Stream, partition and replica.
  shrink_isr expand_isr : ℕ → ℕ → ℕ → Op

pub data Error : Type 0 where
  no_such_partition not_a_replica : Error

pub data Applied (Q : Type 0) : Type 0 where
  applied : List (Entry Q) → Applied Q
  failed : Error → Applied Q

module _ {Q : Type 0} where
  abbrev pub is_at : ℕ → ℕ → Entry Q → Bool
  is_at stream id e = e.stream == stream && e.id == id

  -- `GetPartition`.
  unfoldable pub get_partition : ℕ → ℕ → List (Entry Q) → Option (Partition Q)
  get_partition stream id [] = none
  get_partition stream id (e ∷ es) =
      let rest = get_partition stream id es in if is_at stream id e then some e.part else rest

  -- A change of the partition that the table points to.
  unfoldable pub put_partition : ℕ → ℕ → Partition Q → List (Entry Q) → List (Entry Q)
  put_partition stream id p es =
      map (λ e. if is_at stream id e then record e { part = p } else e) es

  module _ (ops : QueueOps Q) (min_isr : ℕ) where
    -- `SetEpoch` after a change that the partition accepted.
    set_epoch : List (Entry Q) → ℕ → ℕ → ℕ → Option (Partition Q) → Applied Q
    unfolding put_partition
    set_epoch es stream id epoch none = failed not_a_replica
    set_epoch es stream id epoch (some p) =
        applied (put_partition stream id (record p { epoch = epoch }) es)

    -- `applyShrinkISR` and `applyExpandISR`, which differ in the change only.
    apply_to :
        List (Entry Q)
        → ℕ
        → ℕ
        → ℕ
        → (Partition Q → Option (Partition Q))
        → Option (Partition Q)
        → Applied Q
    unfolding set_epoch
    apply_to es stream id epoch change none = failed no_such_partition
    apply_to es stream id epoch change (some p) =
        if leb epoch p.epoch then applied es else set_epoch es stream id epoch (change p)

    -- `apply` of an operation at an index.
    unfoldable pub apply : List (Entry Q) → Op → ℕ → Applied Q
    unfolding apply_to
    apply es (shrink_isr stream id replica) index =
        apply_to es stream id index (λ p. remove_from_isr ops min_isr p replica)
          (get_partition stream id es)
    apply es (expand_isr stream id replica) index =
        apply_to es stream id index (λ p. add_to_isr ops min_isr p replica)
          (get_partition stream id es)
