-- ===== src/StateMachine/Tests.antt =====
-- The theorems at concrete streams.
use liftbridge.Common.{◌≡◌, refl, true, false, List, [], ◌∷◌, none, some, arith, ◌-ℤ◌, ◌+ℤ◌}
use liftbridge.Segment.{contains, next_offset}
use liftbridge.Partition.{Partition, find_replica}
use liftbridge.Partition.Queue.{Ack}
use liftbridge.Partition.Tests.{lists, part}
use liftbridge.Partition.Lifecycle.{
  set_leader, start_leading_or_following, become_leader, stop_leading_or_following,
}
use liftbridge.Epochs.{assign, new_no_file}
use liftbridge.Log.{new_leader_epoch, newest_offset}
use liftbridge.Fsm.{Entry, get_partition, shrink_isr}
use liftbridge.Metadata.{Metadata, add_partition}
use liftbridge.Metadata.Tests.{
  world, entry, one, first, first-IsChoice, report, proposal, after_report, elects_two,
}
use liftbridge.StateMachine.{accepted, isr_change, change_leader, snapshot, restore, apply}
use liftbridge.StateMachine.Election.{election_misses}
use liftbridge.StateMachine.Snapshot.{restore-snapshot}
use liftbridge.StateMachine.Forget.{find_isr, shrink_forgotten}

election_misses_example :
    let m : Metadata (List Ack) = record one { entries = after_report } in
    let r = apply lists 2 world m (change_leader 7 2 0) 50 false in
    get_partition 7 1 r.0.entries ≡ get_partition 7 1 one.entries
election_misses_example =
    election_misses lists 2 world first report one after_report proposal 50 false first-IsChoice
      elects_two (λ e. absurd (omega (arith, e)))

shrink_forgotten_example :
    let r = apply lists 2 world one (isr_change (shrink_isr 7 1 2)) 50 false in
    (p' : Partition (List Ack)) × (r.1 ≡ accepted)
    × (get_partition 7 1 r.0.entries ≡ some p')
    × (find_replica 2 p'.isr ≡ none)
    × (find_isr 7 1 (snapshot r.0) ≡ some (1 ∷ 2 ∷ []))
unfolding get_partition contains
shrink_forgotten_example =
    shrink_forgotten lists 2 world one 7 1 2 50 false part refl (omega arith) refl

abbrev nothing : Metadata (List Ack)
nothing = record { streams = []; entries = [] }

restored : (restore lists 2 world (snapshot one) nothing).1 ≡ none
unfolding restore snapshot add_partition get_partition set_leader start_leading_or_following
    become_leader stop_leading_or_following new_leader_epoch assign new_no_file newest_offset ◌-ℤ◌
    next_offset ◌+ℤ◌
restored = refl

restore-snapshot_example : snapshot (restore lists 2 world (snapshot one) nothing).0 ≡ snapshot one
unfolding snapshot
restore-snapshot_example = restore-snapshot lists 2 world one nothing (refl, tt) restored

-- The partition 1 of the stream 7, before the end of the recovery.
abbrev recovering : List (Entry (List Ack))
recovering =
    record entry { part = record part { is_leading = false; leader_loops = 0; recovered = true } }
    ∷ []
