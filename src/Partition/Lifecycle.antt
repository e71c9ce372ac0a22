-- ===== src/Partition/Lifecycle.antt =====
-- server/partition.go: how a partition becomes the leader or a follower of its replicas, and how it
-- pauses, closes and goes. The calls of NATS and of the log's files answer with success or an error:
-- the answers are an argument. A function that fails leaves the partition as far as it came.
pub mod Ends
pub mod Roles
pub mod Leading
pub mod Leak
pub mod Recovery
pub mod Tests
use liftbridge.Common.{
  ℕ, suc, ◌-◌, Bool, true, false, not, List, [], Option, none, some, ltb, ◌==◌, if◌then◌else◌, keep,
  ℤ, minus_one, map,
}
use liftbridge.Segment.{contains}
use liftbridge.Epochs.{Disk}
use liftbridge.Epochs
use liftbridge.Log.{Log, new_leader_epoch, newest_offset}
use liftbridge.Partition.Queue.{QueueOps}
use liftbridge.Partition.{Replica, Partition, truncate_uncommitted}

-- The calls that can fail.
pub data Call : Type 0 where
  close_log delete_log : Call
  subscribe subscribe_replication subscribe_offsets : Call
  unsubscribe unsubscribe_replication unsubscribe_offsets : Call

abbrev pub Answers : Type 0
Answers = Call → Bool

pub data Failure : Type 0 where
  call_failed : Call → Failure
  epoch_failed truncate_failed : Epochs.Error → Failure
  stale_leader_epoch : Failure

-- What `newPartition` reads of the stored partition.
pub record ProtoPartition : Type 0 where
  pub leader_id : ℕ
  pub leader_epoch : ℕ
  pub epoch : ℕ
  pub replicas : List ℕ
  pub isr : List ℕ

abbrev pub is_error : {E : Type 0} → Option E → Bool
is_error none = false
is_error (some e) = true

abbrev pub wrap : {E : Type 0} → (E → Failure) → Option E → Option Failure
wrap f none = none
wrap f (some e) = some (f e)

-- The offset of a replica is -1, of this server the newest offset of its log.
unfoldable pub init_replica : ℕ → Log → ℕ → Replica
init_replica self log id = record {
  id = id;
  offset = if id == self then newest_offset log else minus_one;
}

module _ {Q : Type 0} where
  -- `if err := ...; err != nil { return err }`.
  unfoldable pub try :
      Partition Q × Option Failure
      → (Partition Q → Partition Q × Option Failure)
      → Partition Q × Option Failure
  try (p, none) f = f p
  try (p, some e) f = (p, some e)

  unfoldable pub call : Answers → Call → Partition Q → Partition Q × Option Failure
  call ok c p = if ok c then (p, none) else (p, some (call_failed c))

  -- `newPartition` on an opened log. The queue is nil until the partition leads.
  unfoldable pub new_partition : ℕ → Q → Log → ProtoPartition → Bool → Partition Q
  unfolding init_replica
  new_partition self nil_queue log proto recovered = record {
    self = self;
    leader_id = proto.leader_id;
    leader_epoch = proto.leader_epoch;
    epoch = proto.epoch;
    is_leading = false;
    is_following = false;
    replicas = proto.replicas;
    replicators = [];
    isr = map (init_replica self log) proto.isr;
    stored_isr = proto.isr;
    queue = nil_queue;
    commit_checks = 0;
    below_min_isr = false;
    pause = false;
    recovered = recovered;
    paused = false;
    is_closed = false;
    leader_loops = 0;
    follower_loops = 0;
    log = log;
  }

module _ {Q : Type 0} (ops : QueueOps Q) (min_isr : ℕ) (disk : Disk) (ok : Answers) where
  -- The loops stop when the channel `stopLeader` of the last start is closed. `stopLeading` waits for
  -- them; here they have stopped at once.
  stop_loops : Partition Q → Partition Q × Option Failure
  stop_loops p = (
    record p { leader_loops = p.leader_loops - 1; queue = ops.dispose p.queue; is_leading = false },
    none,
  )

  unfoldable pub stop_leading : Partition Q → Partition Q × Option Failure
  unfolding try call stop_loops
  stop_leading p = try (call ok unsubscribe p) (λ p1.
      try (call ok unsubscribe_replication p1)
        (λ p2. try (call ok unsubscribe_offsets p2) stop_loops))

  unfoldable pub stop_following : Partition Q → Partition Q × Option Failure
  stop_following p =
      (record p { follower_loops = p.follower_loops - 1; is_following = false }, none)

  unfoldable pub stop_leading_or_following : Partition Q → Partition Q × Option Failure
  unfolding stop_leading stop_following
  stop_leading_or_following p =
      if p.is_following
      then stop_following p
      else if p.is_leading
      then stop_leading p
      else (p, none)

  -- A recovered partition continues the epoch that it led in.
  start_epoch : ℕ → Partition Q → Partition Q × Option Failure
  start_epoch epoch p =
      let started = new_leader_epoch disk p.log epoch in
      if p.recovered then (p, none) else (record p { log = started.0 }, wrap epoch_failed started.1)

  -- The message loop, with `startReplicating`: the commit loop on a new queue and a replicator for
  -- each other replica.
  unfoldable pub start_replicating : Partition Q → Partition Q
  start_replicating p = record p {
    leader_loops = suc p.leader_loops;
    queue = ops.fresh;
    replicators = keep (λ r. not (r == p.self)) p.replicas;
  }

  lead : Partition Q → Partition Q × Option Failure
  lead p = (record p { is_leading = true; is_following = false }, none)

  -- The subscriptions to messages, to replication requests and to offset requests.
  subscribe_all : Partition Q → Partition Q × Option Failure
  unfolding try call lead
  subscribe_all p =
      try (call ok subscribe p) (λ p1.
        try (call ok subscribe_replication p1) (λ p2. try (call ok subscribe_offsets p2) lead))

  unfoldable pub become_leader : ℕ → Partition Q → Partition Q × Option Failure
  unfolding try start_epoch subscribe_all start_replicating
  become_leader epoch p =
      try (stop_leading_or_following p)
        (λ p1. try (start_epoch epoch p1) (λ p2. subscribe_all (start_replicating p2)))

  follow : Partition Q → Partition Q × Option Failure
  follow p = (
    record p { follower_loops = suc p.follower_loops; is_following = true; is_leading = false },
    none,
  )

  truncate_first : (ℕ → Option ℤ) → Partition Q → Partition Q × Option Failure
  truncate_first answer p =
      let cut = truncate_uncommitted ops min_isr disk p answer in
      (cut.0, wrap truncate_failed cut.1)

  -- `becomeFollower`, given what the leader answers for the last epoch of this server.
  unfoldable pub become_follower : (ℕ → Option ℤ) → Partition Q → Partition Q × Option Failure
  unfolding try truncate_first follow
  become_follower answer p =
      try (stop_leading_or_following p) (λ p1. try (truncate_first answer p1) follow)

  unfoldable pub start_leading_or_following :
      (ℕ → Option ℤ) → Partition Q → Partition Q × Option Failure
  unfolding contains
  start_leading_or_following answer p =
      if p.leader_id == p.self
      then become_leader p.leader_epoch p
      else if contains p.self p.replicas
      then become_follower answer p
      else (p, none)

  unfoldable pub set_leader : (ℕ → Option ℤ) → ℕ → ℕ → Partition Q → Partition Q × Option Failure
  set_leader answer leader epoch p =
      let p1 = record p { leader_id = leader; leader_epoch = epoch } in
      if ltb epoch p.leader_epoch
      then (p, some stale_leader_epoch)
      else if p.recovered
      then (p1, none)
      else start_leading_or_following answer p1

  finish_recovery : Partition Q → Partition Q × Option Failure
  finish_recovery p = (record p { recovered = false }, none)

  -- `StartRecovered`: the partition, whether it was a recovered one, and the error.
  unfoldable pub start_recovered :
      (ℕ → Option ℤ) → Partition Q → Partition Q × (Bool × Option Failure)
  unfolding try finish_recovery
  start_recovered answer p =
      let started = try (start_leading_or_following answer p) finish_recovery in
      if not p.recovered
      then (p, (false, none))
      else if p.paused
      then (p, (true, none))
      else (started.0, (not (is_error started.1), started.1))

  mark_closed : Partition Q → Partition Q × Option Failure
  mark_closed p = (record p { is_closed = true }, none)

  unfoldable pub close : Partition Q → Partition Q × Option Failure
  unfolding try call mark_closed
  close p =
      if p.is_closed
      then (p, none)
      else try (call ok close_log p) (λ p1. try (stop_leading_or_following p1) mark_closed)

  unfoldable pub pause : Partition Q → Partition Q × Option Failure
  pause p = close (record p { paused = true })

  unfoldable pub delete : Partition Q → Partition Q × Option Failure
  unfolding try call
  delete p = try (call ok delete_log p) stop_leading_or_following
