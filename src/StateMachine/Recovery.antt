-- ===== src/StateMachine/Recovery.antt =====
-- The end of a recovery.
use liftbridge.Common.{ℕ, List, [], ◌∷◌}
use liftbridge.Partition.Queue.{QueueOps}
use liftbridge.Partition.Lifecycle.Recovery.{Resumes}
use liftbridge.Fsm.{Entry}
use liftbridge.Metadata.{World}

module _ {Q : Type 0} (ops : QueueOps Q) (min_isr : ℕ) (w : World Q) where
  abbrev pub AllResume : List (Entry Q) → List (Entry Q) → Type 0
  AllResume [] [] = Unit {0}
  AllResume [] (e ∷ es) = ⊥
  AllResume (e ∷ es) [] = ⊥
  AllResume (e ∷ es) (e' ∷ es') = Resumes ops min_isr e.part e'.part × AllResume es es'
