-- ===== src/Partition/Tests.antt =====
-- The theorems at a concrete partition. Its commit queue is a list, or disposed.
use liftbridge.Common.{
  ℕ, ◌<◌, ◌≡◌, ◌↔◌, refl, inl, ℤ, pos, minus_one, ◌+ℤ◌, ◌≤ℤ◌, true, false, List, [], ◌∷◌, ◌++◌,
  Option, none, some, arith, All, keep, length,
}
use liftbridge.Segment.Tests.{at}
use liftbridge.Log.{segments}
use liftbridge.Log.Order.{view}
use liftbridge.Log.Tests.{accepts, two, two-IsValidLog}
use liftbridge.Partition.Queue.{Ack, all, take_while, drop_while, QueueOps, QueueLaws}
use liftbridge.Partition.{
  Partition, ran, remove_from_isr, add_to_isr, send_committed, min_latest, commit,
  truncate_uncommitted,
}
use liftbridge.Partition.Isr.{Changes, remove_from_isr_lem, add_to_isr_lem}
use liftbridge.Partition.Commit.{is_ready, is_pending, is_answered, IsLowest, commit_lem}
use liftbridge.Partition.Trace.{IsSafe, start, then_, commits, pends, Trace-IsSafe}
use liftbridge.Log.{set_high_watermark}
use liftbridge.Partition.{send_ack, process_pending, is_leader_policy}
use liftbridge.Partition.Follow.{truncate_uncommitted_lem}

-- A queue that is a list.
abbrev pub lists : QueueOps (List Ack)
lists = record {
  fresh = [];
  dispose = λ q. [];
  put = λ q a. some (q ++ a ∷ []);
  take_until = λ q f. some (take_while f q, drop_while f q);
}

abbrev pub Holds : List Ack → List Ack → Type 0
Holds q acks = q ≡ acks

pub list_laws : QueueLaws lists Holds
list_laws = record {
  starts = refl;
  puts = λ q acks a h. (q ++ a ∷ [], refl, rw h refl);
  takes = λ q acks f h. (drop_while f q, rw h refl, rw h refl);
}

abbrev wants : ℕ → Ack
wants offset = record { offset = pos offset; policy = all; has_inbox = true }

-- The leader 1 is at 10, the follower 2 at 9, and 3 is not in sync.
abbrev pub part : Partition (List Ack)
part = record {
  self = 1;
  leader_id = 1;
  leader_epoch = 2;
  epoch = 40;
  is_leading = true;
  is_following = false;
  replicas = 1 ∷ 2 ∷ 3 ∷ [];
  replicators = 2 ∷ 3 ∷ [];
  isr = (record { id = 1; offset = pos 10 }) ∷ (record { id = 2; offset = pos 9 }) ∷ [];
  stored_isr = 1 ∷ 2 ∷ [];
  queue = wants 9 ∷ wants 10 ∷ [];
  commit_checks = 0;
  below_min_isr = false;
  pause = false;
  recovered = false;
  paused = false;
  is_closed = false;
  leader_loops = 1;
  follower_loops = 0;
  log = two;
}

abbrev pub follower : Partition (List Ack)
follower = record part { self = 2; is_leading = false; is_following = true }

commit_example :
    (m : ℤ) × IsLowest m part.isr
    × ((p' : Partition (List Ack)) × (sent : List Ack) × (commit lists 2 part ≡ ran p' sent)
        × (sent ≡ keep is_answered (keep (is_ready m) part.queue))
        × Holds p'.queue (keep (is_pending m) part.queue)
        × (m ≤ℤ p'.log.hw)
        × All (λ a. a.offset ≤ℤ p'.log.hw) sent)
commit_example =
    commit_lem lists 2 Holds part (wants 9 ∷ wants 10 ∷ []) list_laws refl (omega arith) (λ e. cc)
      (omega arith)

remove_from_isr_example :
    Changes lists 2 2 part none
      (λ p'. (p'.below_min_isr ≡ true) ↔ (length p'.isr < 2))
      (remove_from_isr lists 2 part 2)
remove_from_isr_example = remove_from_isr_lem lists 2 part 2 (inl refl)

add_to_isr_example :
    Changes lists 2 3 part
      (some (record { id = 3; offset = minus_one }))
      (λ p'. (p'.below_min_isr ≡ true) ↔ ((part.below_min_isr ≡ true) × (length p'.isr < 2)))
      (add_to_isr lists 2 part 3)
add_to_isr_example = add_to_isr_lem lists 2 part 3

-- The leader answers that the last epoch of the follower ended at 9.
abbrev pub answer : ℕ → Option ℤ
answer epoch = some (pos 9)

truncate_uncommitted_example :
    let l' = (truncate_uncommitted lists 2 accepts follower answer).0.log in
    (view (segments l') ≡ at 5 0 ∷ at 6 10 ∷ at 8 20 ∷ at 9 0 ∷ []) × (l'.hw ≡ pos 8)
unfolding ◌+ℤ◌
truncate_uncommitted_example =
    truncate_uncommitted_lem lists 2 accepts follower answer two-IsValidLog

-- The leader after it has committed 9.
abbrev committed : Partition (List Ack)
committed = record part { queue = wants 10 ∷ []; log = record two { hw = pos 9; hw_waiters = [] } }

commits_nine : commit lists 2 part ≡ ran committed (wants 9 ∷ [])
unfolding commit min_latest send_committed send_ack set_high_watermark
commits_nine = refl

-- It takes a message that wants all replicas, after the round.
abbrev waiting : Partition (List Ack)
waiting = record committed { queue = wants 10 ∷ wants 11 ∷ [] }

pends_eleven : process_pending lists 2 committed (wants 11) ≡ some (waiting, [])
unfolding process_pending is_leader_policy
pends_eleven = refl

trace_example : IsSafe lists 2 Holds list_laws part (wants 9 ∷ []) waiting
trace_example =
    Trace-IsSafe lists 2 Holds list_laws part waiting (wants 9 ∷ []) (wants 9 ∷ wants 10 ∷ []) refl
      (then_ (then_ start (commits commits_nine)) (pends (wants 11) pends_eleven))
