-- ===== src/Compaction/Tests.antt =====
-- The theorem at a concrete log.
use liftbridge.Common.{pos, [], ◌∷◌}
use liftbridge.Log.Tests.{accepts, two, two-IsValidLog}
use liftbridge.Compaction.{compact}
use liftbridge.Compaction.Refines.{IsCompacted, compact-IsCompacted}

compact-IsCompacted_example :
    IsCompacted
      (107 ∷ [])
      (pos 8)
      two.older
      two.active
      (compact accepts (pos 8) two.older two.active).0
compact-IsCompacted_example =
    compact-IsCompacted accepts (pos 8) two.older two.active 107 [] two-IsValidLog.chain
