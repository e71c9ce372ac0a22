-- ===== src/Replication/Tests.antt =====
-- A round of replication at a concrete follower.
use liftbridge.Common.{refl, pos, ◌+ℤ◌, ◌-ℤ◌, true, [], ◌∷◌, arith}
use liftbridge.Segment.{next_offset}
use liftbridge.Log.{newest_offset}
use liftbridge.Log.Tests.{accepts, all_good, two-IsValidLog, full_not_empty}
use liftbridge.Envelope.{reset}
use liftbridge.MessageSet.{Encoded}
use liftbridge.Partition.Tests.{lists, follower}
use liftbridge.Replication.Round.{FitsResponse}
use liftbridge.Replication.CatchUp.{IsReady, CatchesUp, receive-CatchesUp}
use liftbridge.Replication.Stored.{Stored, AreStored}

abbrev small : Encoded
small = record { timestamp = pos 40; leader_epoch = 2; content = 1 ∷ 2 ∷ [] }

-- The log of the follower ends at 10.
abbrev eleven : Stored
eleven = record { offset = pos 11; message = small }

abbrev fourteen : Stored
fourteen = record { offset = pos 14; message = small }

eleven_fits : FitsResponse 2 eleven
unfolding reset
eleven_fits = omega arith

fourteen_fits : FitsResponse 2 fourteen
unfolding reset
fourteen_fits = omega arith

are_stored : AreStored (newest_offset follower.log +ℤ pos 1) (eleven ∷ fourteen ∷ [])
unfolding newest_offset next_offset ◌+ℤ◌ ◌-ℤ◌
are_stored = (
  omega arith,
  omega arith,
  record {
    offset_fits = omega arith;
    timestamp_fits = omega arith;
    epoch_fits = omega arith;
    size_fits = omega arith;
    not_empty = omega arith;
  },
  (
    omega arith,
    omega arith,
    record {
      offset_fits = omega arith;
      timestamp_fits = omega arith;
      epoch_fits = omega arith;
      size_fits = omega arith;
      not_empty = omega arith;
    },
    tt,
  ),
)

follower-IsReady :
    IsReady lists 2
      (λ bs. 0)
      accepts
      (pos 0)
      (pos 50)
      (λ bs. true)
      (pos 10)
      (pos 14)
      follower
      (eleven ∷ fourteen ∷ [])
follower-IsReady = record {
  epoch_fits = omega arith;
  stored = are_stored;
  ends = refl;
  small = (eleven_fits, (fourteen_fits, tt));
  valid = two-IsValidLog;
  follows = refl;
  room = full_not_empty;
}

receive-CatchesUp_example :
    CatchesUp lists 2
      (λ bs. 0)
      accepts
      (pos 0)
      (pos 50)
      (λ bs. true)
      (pos 10)
      (pos 14)
      follower
      (eleven ∷ fourteen ∷ [])
receive-CatchesUp_example =
    receive-CatchesUp lists 2 (λ bs. 0) accepts (pos 0) (pos 50) (λ bs. true) (pos 10) (pos 14)
      follower (eleven ∷ fourteen ∷ []) (omega arith) all_good follower-IsReady
