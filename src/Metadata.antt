-- ===== src/Metadata.antt =====
-- server/metadata.go and server/stream.go: the streams of a server with their partitions. The
-- partitions of all streams lie in one table; an iteration over a map takes the order of the table.
-- What is asked of NATS, of the log's files and of the file system is answered by a `World`.
pub mod Leaders
pub mod Election
pub mod Tests
use liftbridge.Common.{
  ℕ, ℤ, Bool, true, false, ◌&&◌, not, List, [], ◌∷◌, ◌++◌, map, Option, none, some, ◌==◌,
  if◌then◌else◌, keep,
}
use liftbridge.Segment.{contains}
use liftbridge.Epochs.{Disk}
use liftbridge.Log.{Log}
use liftbridge.Partition.Queue.{QueueOps}
use liftbridge.Partition.{Partition}
use liftbridge.Partition.Lifecycle
use liftbridge.Partition.Lifecycle.{Answers, Failure, ProtoPartition, new_partition, set_leader}
use liftbridge.Fsm.{Entry, get_partition, put_partition}

-- `stream`: what it keeps besides its partitions.
pub record Stream : Type 0 where
  pub name : ℕ
  pub resume_all : Bool

pub record Metadata (Q : Type 0) : Type 0 where
  pub streams : List Stream
  pub entries : List (Entry Q)

pub data Error : Type 0 where
  partition_exists stream_not_found partition_not_found : Error
  open_failed remove_failed : Error
  partition_failed : Failure → Error

-- The answers to the calls for a partition of a stream.
pub record World (Q : Type 0) : Type 0 where
  pub self : ℕ
  pub nil_queue : Q
  pub disk : Disk
  pub answers : ℕ → ℕ → Answers
  pub leader_offset : ℕ → ℕ → ℕ → Option ℤ
  pub open_log : ℕ → ℕ → Option Log
  pub remove_dir : ℕ → Bool

abbrev pub lift : Option Failure → Option Error
lift none = none
lift (some e) = some (partition_failed e)

unfoldable pub has_stream : ℕ → List Stream → Bool
has_stream name [] = false
has_stream name (s ∷ ss) = let rest = has_stream name ss in if s.name == name then true else rest

abbrev pub ids_or_all : List ℕ → List ℕ → List ℕ
ids_or_all [] every = every
ids_or_all (id ∷ ids) every = id ∷ ids

module _ {Q : Type 0} where
  abbrev pub is_of : ℕ → Entry Q → Bool
  is_of stream e = e.stream == stream

  unfoldable pub partition_ids : ℕ → List (Entry Q) → List ℕ
  partition_ids stream es = map (λ e. e.id) (keep (is_of stream) es)

  -- `SetPartition`: a partition in the place of one that is there has no report.
  unfoldable pub set_partition : ℕ → ℕ → Partition Q → List (Entry Q) → List (Entry Q)
  set_partition stream id p [] = (record { stream = stream; id = id; part = p; report = none }) ∷ []
  set_partition stream id p (e ∷ es) =
      let rest = set_partition stream id p es in
      if e.stream == stream && e.id == id
      then record e { part = p; report = none } ∷ es
      else e ∷ rest

  unfoldable pub run_found :
      (Partition Q → Partition Q × Option Failure)
      → ℕ
      → ℕ
      → List (Entry Q)
      → Option (Partition Q)
      → List (Entry Q) × Option Failure
  unfolding put_partition
  run_found f stream id es none = (es, none)
  run_found f stream id es (some p) = (put_partition stream id (f p).0 es, (f p).1)

  -- A call on a partition of the table.
  unfoldable pub run_on :
      (Partition Q → Partition Q × Option Failure)
      → ℕ
      → ℕ
      → List (Entry Q)
      → List (Entry Q) × Option Failure
  unfolding run_found
  run_on f stream id es = run_found f stream id es (get_partition stream id es)

  -- A call on some partitions of a stream, up to the first error.
  unfoldable pub run_each :
      (ℕ → Partition Q → Partition Q × Option Failure)
      → ℕ
      → List ℕ
      → List (Entry Q)
      → List (Entry Q) × Option Failure
  run_each f stream [] es = (es, none)
  run_each f stream (id ∷ ids) es =
      let first = run_on (f id) stream id es in
      let rest = run_each f stream ids first.0 in if Lifecycle.is_error first.1 then first else rest

  -- Whether the stream has all these partitions.
  unfoldable pub has_partitions : ℕ → List ℕ → List (Entry Q) → Bool
  unfolding contains
  has_partitions stream [] es = true
  has_partitions stream (id ∷ ids) es =
      contains id (partition_ids stream es) && has_partitions stream ids es

  set_resume_all : ℕ → Bool → Metadata Q → Metadata Q
  set_resume_all stream resume_all m = record m {
    streams =
        map (λ s. if s.name == stream then record s { resume_all = resume_all } else s) m.streams;
  }

  unfoldable pub with_stream : ℕ → Metadata Q → Metadata Q
  unfolding has_stream
  with_stream stream m =
      if has_stream stream m.streams
      then m
      else record m { streams = m.streams ++ (record { name = stream; resume_all = false }) ∷ [] }

  -- A partition that is not paused is in the way.
  unfoldable pub is_taken : Option (Partition Q) → Bool
  is_taken none = false
  is_taken (some p) = not p.paused

  module _ (ops : QueueOps Q) (min_isr : ℕ) (w : World Q) where
    abbrev pub pause_one : ℕ → ℕ → Partition Q → Partition Q × Option Failure
    pause_one stream id p = Lifecycle.pause ops min_isr w.disk (w.answers stream id) p

    abbrev pub close_one : ℕ → ℕ → Partition Q → Partition Q × Option Failure
    close_one stream id p = Lifecycle.close ops min_isr w.disk (w.answers stream id) p

    abbrev pub delete_one : ℕ → ℕ → Partition Q → Partition Q × Option Failure
    delete_one stream id p = Lifecycle.delete ops min_isr w.disk (w.answers stream id) p

    -- `stream.Pause`: all partitions if none are named.
    unfoldable pub pause_stream : ℕ → List ℕ → Bool → Metadata Q → Metadata Q × Option Error
    unfolding run_each partition_ids has_partitions set_resume_all
    pause_stream stream ids resume_all m =
        let every = partition_ids stream m.entries in
        let paused = run_each (pause_one stream) stream (ids_or_all ids every) m.entries in
        let m1 = record m { entries = paused.0 } in
        if not (has_partitions stream ids m.entries)
        then (m, some partition_not_found)
        else if Lifecycle.is_error paused.1
        then (m1, lift paused.1)
        else (set_resume_all stream resume_all m1, none)

    unfoldable pub close_stream : ℕ → List (Entry Q) → List (Entry Q) × Option Failure
    unfolding run_each partition_ids
    close_stream stream es = run_each (close_one stream) stream (partition_ids stream es) es

    unfoldable pub delete_stream : ℕ → List (Entry Q) → List (Entry Q) × Option Failure
    unfolding run_each partition_ids
    delete_stream stream es = run_each (delete_one stream) stream (partition_ids stream es) es

    -- `CloseAndDeleteStream`; the reports go with the partitions.
    unfoldable pub close_and_delete_stream : ℕ → Metadata Q → Metadata Q × Option Error
    unfolding delete_stream
    close_and_delete_stream stream m =
        let deleted = delete_stream stream m.entries in
        if Lifecycle.is_error deleted.1
        then (record m { entries = deleted.0 }, lift deleted.1)
        else if not (w.remove_dir stream)
        then (record m { entries = deleted.0 }, some remove_failed)
        else (
          record {
            streams = keep (λ s. not (s.name == stream)) m.streams;
            entries = keep (λ e. not (is_of stream e)) deleted.0;
          },
          none,
        )

    unfoldable pub close_all : List Stream → List (Entry Q) → List (Entry Q) × Option Failure
    unfolding close_stream
    close_all [] es = (es, none)
    close_all (s ∷ ss) es =
        let first = close_stream s.name es in
        let rest = close_all ss first.0 in if Lifecycle.is_error first.1 then first else rest

    unfoldable pub reset : Metadata Q → Metadata Q × Option Error
    unfolding close_all
    reset m =
        let closed = close_all m.streams m.entries in
        if Lifecycle.is_error closed.1
        then (record m { entries = closed.0 }, lift closed.1)
        else (record { streams = []; entries = [] }, none)

    unfoldable pub start_added :
        ℕ → ℕ → ProtoPartition → Bool → Metadata Q → Option Log → Metadata Q × Option Error
    unfolding set_partition new_partition
    start_added stream id proto recovered m none = (m, some open_failed)
    start_added stream id proto recovered m (some log) =
        let p = new_partition w.self w.nil_queue log proto recovered in
        let started =
          set_leader ops min_isr w.disk (w.answers stream id) (w.leader_offset stream id)
            proto.leader_id proto.leader_epoch p in
        (record m { entries = set_partition stream id started.0 m.entries }, lift started.1)

    -- `AddPartition`: the stream is made first, even if the partition is in the way.
    unfoldable pub add_partition :
        ℕ → ℕ → ProtoPartition → Bool → Metadata Q → Metadata Q × Option Error
    unfolding with_stream start_added is_taken
    add_partition stream id proto recovered m =
        let m1 = with_stream stream m in
        if is_taken (get_partition stream id m.entries)
        then (m1, some partition_exists)
        else start_added stream id proto recovered m1 (w.open_log stream id)
