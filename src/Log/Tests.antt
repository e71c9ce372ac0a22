-- ===== src/Log/Tests.antt =====
-- The theorems at a concrete log.
use liftbridge.Common.{
  Bool, ◌≡◌, ◌≢◌, refl, inr, pos, ◌+ℤ◌, ◌-ℤ◌, true, false, [], ◌∷◌, ◌⊎◌, none, arith,
}
use liftbridge.Segment.{Segment, next_offset, check_split}
use liftbridge.Segment.Write.{IsValid}
use liftbridge.Segment.Tests.{at, gap, gap-IsValid}
use liftbridge.Epochs.{Disk, new_no_file}
use liftbridge.Log.{Log, Message, segments, newest_offset, append, append_message_set, truncate}
use liftbridge.Log.Order.{IsValidLog}
use liftbridge.Log.Append.{IsAppended, append-IsAppended}
use liftbridge.Log.Extend.{AllGood, Appends}
use liftbridge.Log.Replicate.{IsReplicated, append_message_set-IsReplicated}
use liftbridge.Log.Truncate.{IsTruncated, truncate-IsTruncated}
use liftbridge.Log.Cleaning.{Cleans, clean_log, clean_log-Cleans}
use liftbridge.Retention
use liftbridge.Retention.{Limits}

abbrev pub accepts : Disk
accepts content = true

pub all_good : AllGood accepts
all_good content = refl

-- The active segment, full: it holds 9 and 10.
abbrev pub full : Segment
full = record {
  base_offset = pos 9;
  first_offset = pos 9;
  last_offset = pos 10;
  first_write_time = pos 10;
  last_write_time = pos 11;
  position = 20;
  max_bytes = 20;
  records = at 9 0 ∷ at 10 10 ∷ [];
  waiters = [];
  sealed = false;
  closed = false;
  replaced = false;
}

full-IsValid : IsValid full
unfolding ◌+ℤ◌
full-IsValid = record {
  base = omega arith;
  rising = omega arith;
  bounds = (refl, refl, refl, refl);
  stamped = omega arith;
  started = inr (omega arith);
}

-- 5, 6 and 8 in the older segment, 9 and 10 in the active one; committed up to 8.
abbrev pub two : Log
two = record {
  older = gap ∷ [];
  active = full;
  hw = pos 8;
  hw_waiters = 4 ∷ [];
  epochs = new_no_file;
  max_segment_bytes = 20;
}

pub two-IsValidLog : IsValidLog two
unfolding next_offset ◌+ℤ◌
two-IsValidLog = record {
  chain = (omega arith, gap-IsValid, (omega arith, full-IsValid, tt));
  open_active = refl;
}

pub full_not_empty : (check_split full (pos 0) (pos 50) ≡ false) ⊎ (full.records ≢ [])
full_not_empty = inr (λ e. cc)

abbrev message : Message
message = record { key = none; timestamp = pos 40; leader_epoch = 2; size = 10 }

-- The active segment is full, so a new one is rolled out.
append-IsAppended_example :
    Appends
      (append accepts two (pos 0) (pos 50) (message ∷ message ∷ []) true)
      (λ l' offsets. IsAppended two l' (message ∷ message ∷ []) offsets)
append-IsAppended_example =
    append-IsAppended accepts two (pos 0) (pos 50) message (message ∷ []) two-IsValidLog all_good
      (omega arith) full_not_empty

append_message_set-IsReplicated_example :
    Appends
      (append_message_set accepts two (pos 0) (pos 50) (at 11 0 ∷ at 14 10 ∷ []) true)
      (λ l' offsets. IsReplicated two l' (at 11 0 ∷ at 14 10 ∷ []) offsets)
unfolding newest_offset next_offset ◌+ℤ◌ ◌-ℤ◌
append_message_set-IsReplicated_example =
    append_message_set-IsReplicated accepts two (pos 0) (pos 50) (at 11 0) (at 14 10 ∷ [])
      two-IsValidLog all_good (omega arith) (omega arith) full_not_empty

truncate-IsTruncated_example :
    let l' = (truncate accepts two (pos 7)).0 in
    IsTruncated (pos 7) (pos 0) (segments two) (segments l') × (l'.hw ≡ pos 8)
truncate-IsTruncated_example = truncate-IsTruncated accepts two (pos 7) two-IsValidLog

abbrev deletable : Segment → Bool
deletable s = true

abbrev at_most : Limits
at_most = record { bytes = pos 0; messages = pos 10; age = pos 0; ttl = pos 0 }

abbrev unlimited : Limits
unlimited = record { bytes = pos 0; messages = pos 0; age = pos 0; ttl = pos 0 }

clean_log-Cleans_example :
    Cleans accepts true
      (pos 8)
      two
      (Retention.clean deletable at_most (segments two))
      (clean_log accepts deletable at_most true (pos 8) (segments two) two)
clean_log-Cleans_example =
    clean_log-Cleans accepts deletable at_most true (pos 8) two two-IsValidLog
