-- ===== src/Replicator/Tests.antt =====
-- The theorems at concrete requests.
use liftbridge.Common.{
  ℕ, zero, suc, ◌≡◌, refl, ap, inr, pos, ◌+ℤ◌, ◌-ℤ◌, true, false, [], ◌∷◌, some, none, arith,
  length, All,
}
use liftbridge.Decimal.{Bytes}
use liftbridge.Log.{newest_offset}
use liftbridge.Segment.{next_offset}
use liftbridge.Envelope.{ok, reset, unmarshal_replication_response}
use liftbridge.Partition.Tests.{lists, part}
use liftbridge.Replicator.{Replicator, Found, found, is_over, serve, handle_request, tick}
use liftbridge.Replicator.Fill.{Answers, serve-Answers, serve_oversized}
use liftbridge.Replicator.InSync.{StaysIn, handle_request-StaysIn}

zeros : ℕ → Bytes
zeros zero = []
zeros (suc n) = 0 ∷ zeros n

length-zeros : (n : ℕ) → length (zeros n) ≡ n
unfolding zeros
length-zeros zero = refl
length-zeros (suc n) = ap (λ k. suc k) (length-zeros n)

-- A message at offset 6.
abbrev next_one : Found
next_one = record { offset = pos 6; headers = zeros 28; message = 1 ∷ 2 ∷ [] }

serve-Answers_example :
    Answers
      (λ bs. 0)
      3
      (pos 5)
      (pos 6)
      (pos 5)
      (found next_one ∷ [])
      (serve (λ bs. true) 3 (pos 5) (pos 6) (pos 5) (some (found next_one ∷ [])))
serve-Answers_example =
    serve-Answers (λ bs. 0) (λ bs. true) 3 (pos 5) (pos 6) (pos 5) (found next_one ∷ [])
      (omega arith) (omega arith) (length-zeros 28, tt) (inr (omega arith))

-- A message of 1 MiB.
abbrev large : Found
large = record { offset = pos 6; headers = zeros 28; message = zeros 1048576 }

large-is_over : is_over large (reset 3) ≡ true
unfolding reset
large-is_over = rw (length-zeros 1048576) refl

serve_oversized_example :
    All
      (λ bs. unmarshal_replication_response (λ cs. 0) bs ≡ ok (3, pos 5, []))
      (serve (λ bs. true) 3 (pos 5) (pos 6) (pos 5) (some (found large ∷ [])))
serve_oversized_example =
    serve_oversized (λ cs. 0) (λ bs. true) 3 (pos 5) (pos 6) (pos 5) large [] (omega arith)
      (omega arith) large-is_over

-- The follower 2, which was at the end at 10 and may lag for 30.
abbrev second : Replicator
second = record {
  epoch = 2;
  replica = 2;
  leader = 1;
  max_lag_time = 30;
  last_caught_up = 10;
  last_seen = 35;
  waiter = false;
}

handle_request-StaysIn_example : StaysIn 7 0 part second (
    tick 7 0 part
      (handle_request lists 2
        (λ bs. true)
        none
        part
        second
        (record { offset = pos 10; received = 50 })).replicator
      75)
unfolding newest_offset ◌-ℤ◌ next_offset ◌+ℤ◌
handle_request-StaysIn_example =
    handle_request-StaysIn lists 2 (λ bs. true) none part part second
      (record { offset = pos 10; received = 50 }) 7 0 75 (omega arith) (omega arith)
