-- ===== src/Retention/Tests.antt =====
-- The theorems at concrete segments.
use liftbridge.Common.{◌≡◌, refl, pos, Bool, true, List, [], ◌∷◌, arith}
use liftbridge.Segment.{Segment, message_count}
use liftbridge.Segment.Tests.{gap}
use liftbridge.Retention.{Limits, panicked, apply_bytes_limit, clean}
use liftbridge.Retention.Order.{KeepsNewest, clean-KeepsNewest}
use liftbridge.Retention.Bound.{Tight, apply_bytes_limit-Tight}
use liftbridge.Retention.Loss.{clean_panics}

-- Three segments of three messages and 30 bytes.
abbrev three_segments : List Segment
three_segments = gap ∷ gap ∷ gap ∷ []

abbrev deletable : Segment → Bool
deletable s = true

-- At most two messages and 50 bytes.
abbrev limits : Limits
limits = record { bytes = pos 50; messages = pos 2; age = pos 0; ttl = pos 0 }

abbrev by_messages : Limits
by_messages = record { bytes = pos 0; messages = pos 7; age = pos 0; ttl = pos 0 }

clean-KeepsNewest_example :
    KeepsNewest three_segments [] (clean deletable by_messages three_segments)
clean-KeepsNewest_example = clean-KeepsNewest deletable by_messages three_segments

apply_bytes_limit-Tight_example :
    Tight deletable
      (λ s. s.position)
      (pos 70)
      (gap ∷ [])
      three_segments
      []
      (apply_bytes_limit deletable (pos 70) three_segments [])
apply_bytes_limit-Tight_example =
    apply_bytes_limit-Tight deletable (pos 70) three_segments gap (gap ∷ gap ∷ []) [] refl

clean_panics_example : clean deletable limits three_segments ≡ panicked three_segments
clean_panics_example =
    clean_panics deletable limits three_segments gap (gap ∷ gap ∷ []) (λ s. refl) refl (omega arith)
      refl (omega arith) (unfold message_count in omega arith) (omega arith)
