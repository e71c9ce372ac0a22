-- ===== src/Segment/Tests.antt =====
-- The theorems at concrete segments.
use liftbridge.Common.{ℕ, suc, refl, inr, pos, ◌+ℤ◌, false, [], ◌∷◌, none, arith}
use liftbridge.Segment.{Record, Segment}
use liftbridge.Segment.Write.{IsValid}

-- A record of ten bytes.
abbrev pub at : ℕ → ℕ → Record
at offset position = record {
  offset = pos offset;
  timestamp = pos (suc offset);
  leader_epoch = 1;
  position = position;
  size = 10;
  key = none;
}

-- A segment that starts at 5 and holds 5, 6 and 8.
abbrev pub gap : Segment
gap = record {
  base_offset = pos 5;
  first_offset = pos 5;
  last_offset = pos 8;
  first_write_time = pos 6;
  last_write_time = pos 9;
  position = 30;
  max_bytes = 100;
  records = at 5 0 ∷ at 6 10 ∷ at 8 20 ∷ [];
  waiters = 7 ∷ [];
  sealed = false;
  closed = false;
  replaced = false;
}

pub gap-IsValid : IsValid gap
unfolding ◌+ℤ◌
gap-IsValid = record {
  base = omega arith;
  rising = omega arith;
  bounds = (refl, refl, refl, refl);
  stamped = omega arith;
  started = inr (omega arith);
}
