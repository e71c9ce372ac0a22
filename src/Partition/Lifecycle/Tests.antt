-- ===== src/Partition/Lifecycle/Tests.antt =====
-- The theorems at a concrete partition.
use liftbridge.Common.{
  ◌≤◌, ◌≡◌, ◌≢◌, refl, sym, ◌∙◌, inr, true, false, List, none, arith, ◌-ℤ◌, ◌+ℤ◌,
}
use liftbridge.Segment.{contains, next_offset}
use liftbridge.Epochs.{assign, new_no_file}
use liftbridge.Log.{new_leader_epoch, newest_offset}
use liftbridge.Log.Tests.{accepts}
use liftbridge.Partition.{Partition, handed, handle_replication_request}
use liftbridge.Partition.Queue.{Ack}
use liftbridge.Partition.Tests.{lists, part, answer}
use liftbridge.Partition.Lifecycle.{
  close_log, delete_log, subscribe, subscribe_replication, subscribe_offsets, unsubscribe,
  unsubscribe_replication, unsubscribe_offsets, Answers, stop_leading_or_following, stop_leading,
  set_leader, become_leader, close,
}
use liftbridge.Partition.Lifecycle.Ends.{Ends, HasRole}
use liftbridge.Partition.Lifecycle.Roles.{
  Plays, IsSingle, leads, begin, then_, Life-IsSingle, set_leader_lem,
}
use liftbridge.Partition.Lifecycle.Leading.{become_leader_answers}
use liftbridge.Partition.Lifecycle.Leak.{become_leader_leaks}

-- Every call succeeds.
abbrev pub yes_to_all : Answers
yes_to_all c = true

-- The replication subscription is refused.
abbrev refuses : Answers
refuses subscribe_replication = false
refuses close_log = true
refuses delete_log = true
refuses subscribe = true
refuses subscribe_offsets = true
refuses unsubscribe = true
refuses unsubscribe_replication = true
refuses unsubscribe_offsets = true

pub leads_part : HasRole part
leads_part = inr (inr (refl, refl, refl, omega arith))

-- The replica 1 before it leads is told that 2 leads in epoch 3.
abbrev idle_part : Partition (List Ack)
idle_part = record part { is_leading = false }

abbrev demoted : Partition (List Ack)
demoted = (set_leader lists 2 accepts yes_to_all answer 2 3 idle_part).0

Life-IsSingle_example : IsSingle lists 2 demoted × (idle_part.leader_epoch ≤ demoted.leader_epoch)
Life-IsSingle_example =
    Life-IsSingle lists 2 idle_part demoted (refl, refl, refl)
      (then_ begin (leads accepts yes_to_all answer 2 3 refl))

set_leader_example :
    Ends
      (λ p'.
        Plays lists 2 (record part { leader_id = 2 }) p'
        × (p'.leader_id ≡ 2)
        × (p'.leader_epoch ≡ 3)
        × (part.leader_epoch ≤ 3))
      HasRole
      (set_leader lists 2 accepts refuses answer 2 3 part)
set_leader_example = set_leader_lem lists 2 accepts refuses answer 2 3 part leads_part refl

abbrev elected : Partition (List Ack)
elected = (become_leader lists 2 accepts yes_to_all 2 part).0

elects : become_leader lists 2 accepts yes_to_all 2 part ≡ (elected, none)
unfolding become_leader stop_leading_or_following stop_leading new_leader_epoch assign newest_offset
    ◌-ℤ◌ next_offset ◌+ℤ◌ new_no_file
elects = refl

two_is_known :
    (elected.pause ≡ false)
    × (elected.leader_epoch ≡ 2)
    × (contains 2 elected.replicas ≡ true)
    × (elected.self ≡ 1)
unfolding become_leader stop_leading_or_following stop_leading contains new_leader_epoch assign
    newest_offset ◌-ℤ◌ next_offset ◌+ℤ◌ new_no_file
two_is_known = (refl, refl, refl, refl)

become_leader_answers_example : handle_replication_request lists 2 elected 2 2 ≡ handed
become_leader_answers_example =
    become_leader_answers lists 2 accepts yes_to_all 2 part elected 2 2 elects two_is_known.0
      (inr (sym two_is_known.1)) two_is_known.2
      (λ e. let same = e ∙ two_is_known.3 in omega (arith, same))

become_leader_leaks_example :
    let idle : Partition (List Ack) = record part { is_leading = false } in
    let failed = become_leader lists 2 accepts refuses 2 idle in
    (failed.1 ≢ none)
    × (failed.0.is_leading ≡ false)
    × ((close lists 2 accepts yes_to_all failed.0).0.leader_loops ≡ 2)
become_leader_leaks_example =
    become_leader_leaks lists 2 accepts accepts refuses yes_to_all 2
      (record part { is_leading = false }) (λ content. refl) refl refl refl
