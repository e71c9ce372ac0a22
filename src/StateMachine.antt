-- ===== src/StateMachine.antt =====
-- server/fsm.go: the operations of the replicated log on the metadata of a server, the recovery
-- after a restart, and snapshots. The index of an operation in the Raft log is the epoch of its
-- change. Protobuf, the Raft store and its sink are outside: an operation is a value, a snapshot is
-- the list of the stored partitions.
pub mod Election
pub mod Recovery
pub mod Snapshot
mod Tests
pub mod Forget
use liftbridge.Common.{
  ℕ, suc, zero, ◌-◌, ◌+◌, Bool, true, false, ◌&&◌, not, List, [], ◌∷◌, ◌++◌, map, Option, none,
  some, leb, ltb, ◌==◌, if◌then◌else◌, length, ◌||◌,
}
use liftbridge.Segment.{contains}
use liftbridge.Partition.Queue.{QueueOps}
use liftbridge.Partition.{Partition}
use liftbridge.Partition.Lifecycle
use liftbridge.Partition.Lifecycle.{ProtoPartition, set_leader, start_recovered, Failure}
use liftbridge.Fsm.{Entry, get_partition, put_partition}
use liftbridge.Fsm
use liftbridge.Metadata.{
  Stream, Metadata, World, partition_failed, has_stream, partition_ids, close_and_delete_stream,
  reset, add_partition, run_on,
}
use liftbridge.Metadata

-- The operations, on streams, partitions and replicas by their numbers.
pub data Command : Type 0 where
  create_partition : ℕ → ℕ → ProtoPartition → Command
  isr_change : Fsm.Op → Command
  -- Stream, leader and partition.
  change_leader : ℕ → ℕ → ℕ → Command
  delete_stream : ℕ → Command
  pause_stream : ℕ → List ℕ → Bool → Command

-- What `apply` answers: nothing, an error for the caller, or one that is fatal.
pub data Answer : Type 0 where
  accepted : Answer
  refused fatal : Metadata.Error → Answer
  fatal_isr : Fsm.Error → Answer

-- The errors of a creation, a deletion and a pause that go back to the caller.
unfoldable pub is_expected : Metadata.Error → Bool
is_expected Metadata.partition_exists = true
is_expected Metadata.stream_not_found = true
is_expected Metadata.partition_not_found = true
is_expected Metadata.open_failed = false
is_expected Metadata.remove_failed = false
is_expected (partition_failed e) = false

answer_of : Option Metadata.Error → Answer
unfolding is_expected
answer_of none = accepted
answer_of (some e) = if is_expected e then refused e else fatal e

abbrev pub is_fatal : Answer → Bool
is_fatal accepted = false
is_fatal (refused e) = false
is_fatal (fatal e) = true
is_fatal (fatal_isr e) = true

-- `RaftLog`: its index and its operation.
pub record RaftLog : Type 0 where
  pub index : ℕ
  pub command : Command

-- The proto partition of a snapshot with its stream and number.
pub record Stored : Type 0 where
  pub stream : ℕ
  pub id : ℕ
  pub proto : ProtoPartition

pub record Server (Q : Type 0) : Type 0 where
  pub metadata : Metadata Q
  pub recovery_started : Bool
  pub latest_recovered : Option ℕ

-- What the Raft store answers for an index: an error, or whether the entry is a command.
abbrev pub Store : Type 0
Store = ℕ → Option Bool

-- `recoverLatestCommittedFSMLog`, from the index `first + fuel - 1` down: an error, or the index of
-- the last committed command, if there is one. The commit index is `commit`.
unfoldable pub search_command : Store → ℕ → ℕ → ℕ → ℕ → Option (Option ℕ)
search_command store apply_index commit first zero = some none
search_command store apply_index commit first (suc fuel) =
    let i = first + fuel in
    let rest = search_command store apply_index commit first fuel in
    if i == apply_index && apply_index == commit then some none else elim (store i) [
      | none ↦ none
      | some is_command ↦ if is_command then some (some i) else rest
    ]

unfoldable pub recover_latest_committed : Store → ℕ → ℕ → ℕ → Option (Option ℕ)
unfolding search_command
recover_latest_committed store apply_index commit first =
    if first == 0
    then some none
    else search_command store apply_index commit first (suc commit - first)

-- Of the entries that are not started yet, those at or before the index of the last command.
unfoldable pub is_replayed : Option ℕ → ℕ → Bool
is_replayed none index = false
is_replayed (some latest) index = leb index latest

unfoldable pub is_last_replayed : Option ℕ → ℕ → Bool
is_last_replayed none index = false
is_last_replayed (some latest) index = index == latest

module _ {Q : Type 0} where
  -- The protobuf that the partition carries.
  unfoldable pub proto_of : Partition Q → ProtoPartition
  proto_of p = record {
    leader_id = p.leader_id;
    leader_epoch = p.leader_epoch;
    epoch = p.epoch;
    replicas = p.replicas;
    isr = p.stored_isr;
  }

  abbrev pub stored : Entry Q → Stored
  stored e = record { stream = e.stream; id = e.id; proto = proto_of e.part }

  -- `Snapshot`.
  unfoldable pub snapshot : Metadata Q → List Stored
  unfolding proto_of
  snapshot m = map stored m.entries

  set_entries : Metadata Q → Fsm.Applied Q → Metadata Q × Answer
  set_entries m (Fsm.applied es) = (record m { entries = es }, accepted)
  set_entries m (Fsm.failed e) = (m, fatal_isr e)

  answered : Metadata Q × Option Metadata.Error → Metadata Q × Answer
  unfolding answer_of
  answered r = (r.0, answer_of r.1)

  module _ (ops : QueueOps Q) (min_isr : ℕ) (w : World Q) where
    -- `SetLeader`, then `SetEpoch` if it succeeded.
    unfoldable pub lead_at : ℕ → ℕ → ℕ → ℕ → Partition Q → Partition Q × Option Failure
    unfolding Lifecycle.try
    lead_at stream id leader epoch p =
        Lifecycle.try
          (set_leader ops min_isr w.disk (w.answers stream id) (w.leader_offset stream id) leader
            epoch p)
          (λ p1. (record p1 { epoch = epoch }, none))

    -- `applyChangePartitionLeader`.
    apply_change_leader : Metadata Q → ℕ → ℕ → ℕ → ℕ → Option (Partition Q) → Metadata Q × Answer
    unfolding run_on
    apply_change_leader m stream leader id epoch none = (m, fatal_isr Fsm.no_such_partition)
    apply_change_leader m stream leader id epoch (some p) =
        let led = run_on (lead_at stream id leader epoch) stream id m.entries in
        if leb epoch p.epoch
        then (m, accepted)
        else answered (record m { entries = led.0 }, Metadata.lift led.1)

    -- `apply` of an operation at an index.
    unfoldable pub apply : Metadata Q → Command → ℕ → Bool → Metadata Q × Answer
    unfolding answered set_entries apply_change_leader
    apply m (create_partition stream id proto) index recovered = answered (
        add_partition ops min_isr w stream id (record proto { leader_epoch = index; epoch = index })
          recovered m)
    apply m (isr_change op) index recovered =
        set_entries m (Fsm.apply ops min_isr m.entries op index)
    apply m (change_leader stream leader id) index recovered =
        apply_change_leader m stream leader id index (get_partition stream id m.entries)
    apply m (delete_stream stream) index recovered = answered (
        if has_stream stream m.streams
        then close_and_delete_stream ops min_isr w stream m
        else (m, some Metadata.stream_not_found))
    apply m (pause_stream stream ids resume_all) index recovered = answered (
        if has_stream stream m.streams
        then Metadata.pause_stream ops min_isr w stream ids resume_all m
        else (m, some Metadata.stream_not_found))

    -- `StartRecovered` on every entry, up to the first error.
    unfoldable pub finish_recovery : List (Entry Q) → List (Entry Q) × Option Failure
    finish_recovery [] = ([], none)
    finish_recovery (e ∷ es) =
        let started =
          start_recovered ops min_isr w.disk (w.answers e.stream e.id)
            (w.leader_offset e.stream e.id) e.part in
        let rest = finish_recovery es in
        if Lifecycle.is_error started.1.1
        then (record e { part = started.0 } ∷ es, started.1.1)
        else (record e { part = started.0 } ∷ rest.0, rest.1)

    -- The start of the recovery, at the first entry that is applied; none is a panic.
    begin_recovery : Option (Option ℕ) → Server Q → Option (Server Q)
    begin_recovery none s = none
    begin_recovery (some latest) s =
        some (record s { recovery_started = true; latest_recovered = latest })

    ended : Server Q → Answer → List (Entry Q) × Option Failure → Option (Server Q × Answer)
    ended s a (es, none) = some (record s { metadata = record s.metadata { entries = es } }, a)
    ended s a (es, some e) = none

    -- `Apply` once recovery has started; none if it panics. The server is not shutting down.
    apply_log : RaftLog → Option (Server Q) → Option (Server Q × Answer)
    unfolding is_replayed is_last_replayed ended apply finish_recovery
    apply_log l none = none
    apply_log l (some s) =
        let replayed = is_replayed s.latest_recovered l.index in
        let last = is_last_replayed s.latest_recovered l.index in
        let applied = apply s.metadata l.command l.index replayed in
        let s1 = record s {
          metadata = applied.0;
          latest_recovered = if last then none else s.latest_recovered;
        } in
        if is_fatal applied.1
        then none
        else if last
        then ended s1 applied.1 (finish_recovery applied.0.entries)
        else some (s1, applied.1)

    -- `Server.Apply`, given the Raft store, its commit index and its first index.
    unfoldable pub server_apply : Store → ℕ → ℕ → RaftLog → Server Q → Option (Server Q × Answer)
    unfolding apply_log begin_recovery recover_latest_committed
    server_apply store commit first l s = apply_log l (
        if s.recovery_started
        then some s
        else begin_recovery (recover_latest_committed store l.index commit first) s)

    restore_each : List Stored → Metadata Q → Metadata Q × Option Metadata.Error
    restore_each [] m = (m, none)
    restore_each (s ∷ ss) m =
        let added = add_partition ops min_isr w s.stream s.id s.proto false m in
        let rest = restore_each ss added.0 in if Lifecycle.is_error added.1 then added else rest

    -- `Restore`.
    unfoldable pub restore : List Stored → Metadata Q → Metadata Q × Option Metadata.Error
    unfolding restore_each reset
    restore ss m =
        let cleared = reset ops min_isr w m in
        let filled = restore_each ss cleared.0 in
        if Lifecycle.is_error cleared.1 then cleared else filled
