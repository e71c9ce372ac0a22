-- ===== src/Metadata/Tests.antt =====
-- The theorems at concrete streams.
use liftbridge.Common.{ℕ, ◌≡◌, refl, true, false, List, [], ◌∷◌, none, some, arith}
use liftbridge.Segment.{contains}
use liftbridge.Log.Tests.{accepts, two}
use liftbridge.Partition.Queue.{Ack}
use liftbridge.Partition.Tests.{part}
use liftbridge.Partition.Lifecycle.Tests.{yes_to_all}
use liftbridge.Fsm.{Entry, get_partition}
use liftbridge.Metadata.{Metadata, World}
use liftbridge.Metadata.Leaders.{
  LeaderRequest, ChangeLeader, elects, candidates, put_report, report_leader, elect, add_witness,
  get_report,
}
use liftbridge.Metadata.Election.{IsChoice}

abbrev pub world : World (List Ack)
world = record {
  self = 1;
  nil_queue = [];
  disk = accepts;
  answers = λ stream id. yes_to_all;
  leader_offset = λ stream id epoch. none;
  open_log = λ stream id. some two;
  remove_dir = λ stream. true;
}

-- The partition 1 of the stream 7.
abbrev pub entry : Entry (List Ack)
entry = record { stream = 7; id = 1; part = part; report = none }

abbrev pub one : Metadata (List Ack)
one = record { streams = (record { name = 7; resume_all = true }) ∷ []; entries = entry ∷ [] }

abbrev pub first : ℕ → List ℕ → ℕ
first c cs = c

pub first-IsChoice : IsChoice first
unfolding contains
first-IsChoice c cs = ground arith

-- The replica 2 reports the leader 1.
abbrev pub report : LeaderRequest
report = record { stream = 7; id = 1; replica = 2; leader = 1; leader_epoch = 2 }

abbrev pub proposal : ChangeLeader
proposal = record { stream = 7; leader = 2; id = 0 }

abbrev pub after_report : List (Entry (List Ack))
after_report =
    record entry { report = some (record { witnesses = 2 ∷ []; timer_runs = false }) } ∷ []

pub elects_two : report_leader first report one.entries ≡ elects after_report proposal
unfolding report_leader put_report elect candidates add_witness get_partition get_report contains
elects_two = refl
