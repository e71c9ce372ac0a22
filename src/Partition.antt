-- ===== src/Partition.antt =====
-- server/partition.go: a partition on its leader and on its followers, on top of the log. One
-- handler at a time. Servers are numbers, since their names are only compared; a map is an
-- association list without double keys. The commit queue is a package outside the repository: its
-- operations and what is documented of them are an interface. NATS and log lines are left out: what
-- is published is returned.
pub mod Queue
pub mod Isr
pub mod Keeps
pub mod Pending
pub mod Commit
pub mod Follow
pub mod Trace
pub mod Lifecycle
pub mod Tests
use liftbridge.Common.{
  ℕ, suc, ◌-◌, ℤ, pos, minus_one, ◌+ℤ◌, ltb_ℤ, leb_ℤ, eqb_ℤ, Bool, true, false, ◌&&◌, not, List, [],
  ◌∷◌, ◌++◌, map, Option, none, some, ltb, leb, ◌==◌, if◌then◌else◌, length, keep,
}
use liftbridge.Segment.{Record, contains}
use liftbridge.Epochs.{Disk}
use liftbridge.Epochs
use liftbridge.Log.{Log, Message, newest_offset, set_high_watermark, truncate, append_message_set}
use liftbridge.Log
use liftbridge.Partition.Queue.{Ack, Policy, leader, all, none_wanted, QueueOps}

pub record Replica : Type 0 where
  pub id : ℕ
  pub offset : ℤ

pub record Partition (Q : Type 0) : Type 0 where
  pub self : ℕ
  pub leader_id : ℕ
  pub leader_epoch : ℕ
  pub epoch : ℕ
  pub is_leading : Bool
  pub is_following : Bool
  pub replicas : List ℕ
  pub replicators : List ℕ
  pub isr : List Replica
  -- `Isr` of the protobuf that the partition was made from.
  pub stored_isr : List ℕ
  pub queue : Q
  pub commit_checks : ℕ
  pub below_min_isr : Bool
  pub pause : Bool
  pub recovered : Bool
  pub paused : Bool
  pub is_closed : Bool
  -- How many sets of loops run that a leader starts at once, and how many request loops.
  pub leader_loops : ℕ
  pub follower_loops : ℕ
  pub log : Log

-- `updateLatestOffset`: the replica, and whether its offset rose.
unfoldable pub update_latest_offset : Replica → ℤ → Replica × Bool
update_latest_offset r offset =
    if ltb_ℤ r.offset offset then (record r { offset = offset }, true) else (r, false)

unfoldable pub find_replica : ℕ → List Replica → Option Replica
find_replica id [] = none
find_replica id (r ∷ rs) = let rest = find_replica id rs in if r.id == id then some r else rest

-- `delete(p.isr, id)`.
unfoldable pub without : ℕ → List Replica → List Replica
without id rs = keep (λ r. not (r.id == id)) rs

-- Writing through the pointer that the map holds for the replica.
unfoldable pub store_replica : Replica → List Replica → List Replica
store_replica r rs = map (λ x. if x.id == r.id then r else x) rs

-- `min` of the offsets.
min_loop : ℤ → List Replica → ℤ
min_loop m [] = m
min_loop m (r ∷ rs) = min_loop (if ltb_ℤ r.offset m then r.offset else m) rs

unfoldable pub min_latest : List Replica → ℤ
unfolding min_loop
min_latest [] = pos 0
min_latest (r ∷ rs) = min_loop r.offset rs

-- `sendAck`: an ack without an inbox is dropped.
unfoldable pub send_ack : Ack → List Ack
send_ack a = if a.has_inbox then a ∷ [] else []

unfoldable pub is_leader_policy : Policy → Bool
is_leader_policy leader = true
is_leader_policy all = false
is_leader_policy none_wanted = false

unfoldable pub is_all_policy : Policy → Bool
is_all_policy leader = false
is_all_policy all = true
is_all_policy none_wanted = false

-- The acks that a commit of these entries sends.
unfoldable pub send_committed : List Ack → List Ack
unfolding is_all_policy send_ack
send_committed [] = []
send_committed (a ∷ acks) =
    let rest = send_committed acks in if is_all_policy a.policy then send_ack a ++ rest else rest

-- What a round of `commitLoop` does: it sends acks, or finds the queue disposed and ends the loop.
pub data Round (Q : Type 0) : Type 0 where
  ran : Partition Q → List Ack → Round Q
  stopped : Partition Q → Round Q

-- What the leader does with a request of a follower.
pub data Request : Type 0 where
  dropped handed panicked : Request

-- The messages in a response of the leader: none, less than a header, or some.
pub data Payload : Type 0 where
  empty_data too_short : Payload
  messages : Record → List Record → Payload

-- What a follower does with a response: it counts the messages that it appended, or panics.
pub data Response (Q : Type 0) : Type 0 where
  replicated : Partition Q → ℕ → Response Q
  panicked_on_append never_returns : Response Q

module _ {Q : Type 0} (ops : QueueOps Q) (min_isr : ℕ) where
  -- A non-blocking send on `commitCheck`, a channel with room for one check per replica.
  unfoldable pub check_commit : Partition Q → Partition Q
  check_commit p =
      if ltb p.commit_checks (length p.replicas)
      then record p { commit_checks = suc p.commit_checks }
      else p

  after_update : Partition Q → Replica × Bool → Partition Q
  unfolding store_replica check_commit
  after_update p (r, true) = check_commit (record p { isr = store_replica r p.isr })
  after_update p (r, false) = p

  update_found : Partition Q → Option Replica → ℤ → Partition Q
  unfolding after_update
  update_found p none offset = p
  update_found p (some r) offset = after_update p (update_latest_offset r offset)

  unfoldable pub update_isr_latest_offset : Partition Q → ℕ → ℤ → Partition Q
  unfolding update_found
  update_isr_latest_offset p id offset = update_found p (find_replica id p.isr) offset

  -- `RemoveFromISR`; none if the broker is not a replica.
  unfoldable pub remove_from_isr : Partition Q → ℕ → Option (Partition Q)
  unfolding contains
  remove_from_isr p id =
      let rest = without id p.isr in
      let shrunk = record p {
        isr = rest;
        below_min_isr =
            if not p.below_min_isr && ltb (length rest) min_isr then true else p.below_min_isr;
      } in
      if not (contains id p.replicas)
      then none
      else some (if p.is_leading then check_commit shrunk else shrunk)

  -- `AddToISR`: the replica starts at offset -1.
  unfoldable pub add_to_isr : Partition Q → ℕ → Option (Partition Q)
  unfolding contains
  add_to_isr p id =
      let grown = (record { id = id; offset = minus_one }) ∷ without id p.isr in
      if not (contains id p.replicas)
      then none
      else some (record p {
        isr = grown;
        below_min_isr =
            if p.below_min_isr && leb min_isr (length grown) then false else p.below_min_isr;
      })

  put_pending : Partition Q → List Ack → Option Q → Option (Partition Q × List Ack)
  put_pending p sent none = none
  put_pending p sent (some q) = some (record p { queue = q }, sent)

  -- `processPendingMessage`: the acks sent; none if it panics on a disposed queue.
  unfoldable pub process_pending : Partition Q → Ack → Option (Partition Q × List Ack)
  unfolding is_leader_policy send_ack put_pending
  process_pending p a =
      put_pending p (if is_leader_policy a.policy then send_ack a else []) (ops.put p.queue a)

  after_take : Partition Q → Option (List Ack × Q) → Round Q
  after_take p none = stopped p
  after_take p (some (committed, q)) = ran (record p { queue = q }) (send_committed committed)

  -- One round of `commitLoop`, which takes a check out of `commitCheck`.
  unfoldable pub commit : Partition Q → Round Q
  unfolding after_take
  commit p =
      let m = min_latest p.isr in
      let left = p.commit_checks - 1 in
      if ltb (length p.isr) min_isr
      then ran (record p { commit_checks = left }) []
      else after_take (record p { log = set_high_watermark p.log m; commit_checks = left })
          (ops.take_until p.queue (λ a. leb_ℤ a.offset m))

  unfoldable pub handle_replication_request : Partition Q → ℕ → ℕ → Request
  unfolding contains
  handle_replication_request p epoch id =
      if p.pause
      then dropped
      else if not (epoch == 0) && not (epoch == p.leader_epoch)
      then dropped
      else if not (contains id p.replicas)
      then dropped
      else if contains id p.replicators
      then handed
      else panicked

  -- `truncateToHW`.
  unfoldable pub truncate_to_hw : Disk → Partition Q → Partition Q × Option Epochs.Error
  truncate_to_hw disk p =
      let cut = truncate disk p.log (p.log.hw +ℤ pos 1) in
      if eqb_ℤ (newest_offset p.log) p.log.hw then (p, none) else (record p { log = cut.0 }, cut.1)

  truncate_by : Disk → Partition Q → Option ℤ → Partition Q × Option Epochs.Error
  truncate_by disk p none = truncate_to_hw disk p
  truncate_by disk p (some last_offset) =
      let cut = truncate disk p.log (last_offset +ℤ pos 1) in (record p { log = cut.0 }, cut.1)

  -- `truncateUncommitted`, given what the leader answers for the follower's last epoch, if it
  -- answers at all.
  unfoldable pub truncate_uncommitted :
      Disk → Partition Q → (ℕ → Option ℤ) → Partition Q × Option Epochs.Error
  unfolding truncate_by
  truncate_uncommitted disk p answer =
      truncate_by disk p (answer (Epochs.latest_epoch p.log.epochs))

  after_append : Partition Q → Log.Outcome → Response Q
  after_append p (Log.appended l offsets) = replicated (record p { log = l }) (length offsets)
  after_append p (Log.failed l e) = panicked_on_append
  after_append p Log.panicked = panicked_on_append
  after_append p Log.stuck = never_returns

  replicate_data : Disk → Partition Q → ℤ → ℤ → Bool → Payload → Response Q
  unfolding after_append
  replicate_data disk p roll now write_ok empty_data = replicated p 0
  replicate_data disk p roll now write_ok too_short = replicated p 0
  replicate_data disk p roll now write_ok (messages r rs) =
      let appended = after_append p (append_message_set disk p.log roll now (r ∷ rs) write_ok) in
      if ltb_ℤ r.offset (newest_offset p.log +ℤ pos 1) then replicated p 0 else appended

  -- `handleReplicationResponse`, once the response has been parsed.
  unfoldable pub handle_replication_response :
      Disk → Partition Q → ℤ → ℤ → Bool → ℕ → ℤ → Payload → Response Q
  unfolding replicate_data
  handle_replication_response disk p roll now write_ok epoch hw data_ =
      if not p.is_following
      then replicated p 0
      else if not (p.leader_epoch == epoch)
      then replicated p 0
      else replicate_data disk (record p { log = set_high_watermark p.log hw }) roll now write_ok
          data_
