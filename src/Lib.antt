-- ===== src/Lib.antt =====
-- Liftbridge: message streams over NATS, kept in replicated commit logs. A stream has partitions; each
-- partition has a leader and followers, and a commit log on each of them. Messages reach the leader's
-- log; followers fetch them; what every in-sync replica has is committed, by the high watermark. Leader
-- epochs say where a follower that joins a new leader has to cut its log.
--
-- The files, each with its own header, and the code that they model:
--   Common     tests on numbers, lists and integers, and Go's sort.Search (Common/Search)
--   Decimal    the decimal text of the checkpoint files
--   Epochs     server/commitlog/leader_epoch_cache.go: Cache for leaderEpochCache, one function per
--              method; Epochs/Checkpoint for readLeaderEpochOffsets
--   Segment    server/commitlog/segment.go with the entries of index.go: Segment, Record
--   Retention  server/commitlog/delete_cleaner.go: clean and its three limits
--   Compaction server/commitlog/compact_cleaner.go: compact, over Segment and Epochs
--   Log        server/commitlog/commitlog.go and util.go: Log for commitLog, over Segment and Epochs;
--              Log/Cleaning is Clean, over Retention and Compaction
--   Reader     server/commitlog/reader.go: the reader of committed messages, over Log
--   Partition  server/partition.go: Partition over Log; the commit queue is the interface of
--              Partition/Queue, since its package is outside the repository; Partition/Lifecycle is how
--              it becomes a leader or a follower, pauses, closes and recovers
--   Fsm        the table of partitions, with the operations of server/fsm.go on in-sync sets
--   Metadata   server/metadata.go and server/stream.go over that table; Metadata/Leaders is the reports
--              of failed leaders and the elections
--   StateMachine  server/fsm.go: every operation of the Raft log, the recovery, snapshots
--   Envelope   server/protocol/envelope.go, and the writer of responses of server/replicator.go
--   Publish    server/partition.go: the loop that takes messages from NATS, over Partition, Envelope, Codec
--   MessageSet server/commitlog/message_set.go: the bytes of a set of messages and its entries
--   Replication  server/partition.go: the follower of Partition that reads the bytes of a response which
--              the leader of Replicator sends
--   Replicator server/replicator.go: what the leader does for a follower, over Partition and Envelope
--   Codec      server/commitlog/message.go and encoder.go: the bytes of a message and their readers
--
-- A method that changes its receiver is a function that returns the new state, with its error or an
-- outcome: a panic and an endless loop are outcomes of their own. Methods run one at a time, as their
-- locks have it; the commit loop is taken one round at a time. The time, whether a disk takes a write, a
-- peer's answer and what protobuf makes of a message are arguments.
--
-- Offsets and timestamps are integers, sizes and epochs natural numbers; they are not cut to 64
-- bits except in the checkpoint file and in the bytes of a response and of a message set; the
-- sizes in a message are checked against their fields. A position in a segment is a natural
-- number: the source counts the positions of a set in an int32 (MessageSet.new_entries), and an
-- index file keeps positions and relative offsets as int32, which is not modelled. Five loops run
-- on fuel: that over the bytes of a message set, for which their number is enough unless an entry
-- has no bytes, when the loop does not end; the loop of a read, for which the bytes asked for, the
-- segments of the logs and the logs are enough; the binary search, whose range shrinks in each
-- round, so that the number of elements is enough; the digits of a decimal, for which the number
-- itself is; and the search for the last command of the Raft log, which goes down from the commit
-- index to the first one. Every other loop is by recursion on a list.
--
-- What a call of NATS or of the file system answers is an argument too: the Answers of a
-- partition, the World of a server, and what the reader of a log returns to the replicator. The
-- loops of a leader are counted in its partition, not run: a round of each is a function of
-- Partition or of Replicator. The source waits for them to end while it holds the lock of the
-- partition; here they have ended when they are told to.
--
-- Not modelled: opening a log from disk, a failure of the file system in Truncate or in a
-- compaction, the byte layout of segment and index files, the loop of the reader of uncommitted
-- messages and what ReadMessage does when a compaction replaces a segment, the times at which a
-- follower sends its requests and reports a leader that does not answer, fetching and forwarding
-- of metadata, start-up, configuration and the gRPC API.
pub mod Common
pub mod Decimal
pub mod Epochs
pub mod Segment
pub mod Retention
pub mod Log
pub mod Partition
pub mod Fsm
pub mod Metadata
pub mod StateMachine
pub mod Compaction
pub mod Envelope
pub mod Codec
pub mod Replicator
pub mod Publish
pub mod Reader
pub mod MessageSet
pub mod Replication
