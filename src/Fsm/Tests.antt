-- ===== src/Fsm/Tests.antt =====
-- The theorems at a concrete table.
use liftbridge.Common.{◌≡◌, refl, pos, true, List, [], ◌∷◌, none}
use liftbridge.Segment.{contains}
use liftbridge.Partition.{without, remove_from_isr, check_commit}
use liftbridge.Partition.Queue.{Ack}
use liftbridge.Partition.Tests.{lists, part}
use liftbridge.Fsm.{Entry, shrink_isr, applied, get_partition, put_partition, apply}

-- The partition 0 of the stream 7, at epoch 40.
abbrev table : List (Entry (List Ack))
table = (record { stream = 7; id = 0; part = part; report = none }) ∷ []

-- What is left after the replica 2 has gone, at epoch 41.
abbrev shrunk : List (Entry (List Ack))
shrunk =
    (record {
      stream = 7;
      id = 0;
      part = record part {
        epoch = 41;
        isr = (record { id = 1; offset = pos 10 }) ∷ [];
        commit_checks = 1;
        below_min_isr = true;
      };
      report = none;
    })
    ∷ []

shrinks : apply lists 2 table (shrink_isr 7 0 2) 41 ≡ applied shrunk
unfolding apply get_partition put_partition remove_from_isr check_commit without contains
shrinks = refl
