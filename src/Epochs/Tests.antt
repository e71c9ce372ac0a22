-- ===== src/Epochs/Tests.antt =====
-- Runs of the leader epoch cache, and the theorems at concrete caches.
use liftbridge.Common.{ℕ, ◌≡◌, ◌<◌, refl, inr, pos, true, [], ◌∷◌, none, some, arith}
use liftbridge.Decimal.{Bytes}
use liftbridge.Epochs.{
  EpochOffset, Cache, Disk, flush, clear_earliest, latest_epoch, last_offset_for_leader_epoch,
}
use liftbridge.Epochs.Order.{IsOrdered}
use liftbridge.Epochs.Lookup.{start_after, last_offset_for_leader_epoch_lem}
use liftbridge.Epochs.Clear.{Split, clear_earliest_gap}
use liftbridge.Epochs.Checkpoint.{ok, read_leader_epoch_offsets}
use liftbridge.Epochs.Checkpoint.RoundTrip.{read-flush}

abbrev at : ℕ → ℕ → EpochOffset
at epoch offset = record { leader_epoch = epoch; start_offset = pos offset }

-- Epochs 1, 3 and 4 start at 0, 10 and 20.
abbrev three : Cache
three = record { epoch_offsets = at 1 0 ∷ at 3 10 ∷ at 4 20 ∷ []; file_backed = true; file = none }

abbrev accepts : Disk
accepts content = true

three-IsOrdered : IsOrdered three
three-IsOrdered = omega arith

three_lookup : last_offset_for_leader_epoch three 2 ≡ pos 10
unfolding last_offset_for_leader_epoch
three_lookup = refl

last_offset_example : last_offset_for_leader_epoch three 3 ≡ start_after 3 three.epoch_offsets
last_offset_example = last_offset_for_leader_epoch_lem three 3 three-IsOrdered (omega arith)

at_ten : Split three (pos 10) (at 1 0) (at 3 10 ∷ at 4 20 ∷ [])
at_ten = record { before = []; entries = refl; below = omega arith; above = inr (omega arith) }

at_five : Split three (pos 5) (at 1 0) (at 3 10 ∷ at 4 20 ∷ [])
at_five = record { before = []; entries = refl; below = omega arith; above = inr (omega arith) }

clear_earliest_gap_example :
    let cleared = (clear_earliest accepts three (pos 5)).0 in
    (latest_epoch cleared ≡ 1) × (latest_epoch cleared < latest_epoch three) × (¬ IsOrdered cleared)
clear_earliest_gap_example =
    clear_earliest_gap accepts three (pos 5) three-IsOrdered at_five (λ e. cc) (omega arith)

read-flush_example :
    (content : Bytes) × ((flush accepts three).0.file ≡ some content)
    × (read_leader_epoch_offsets content ≡ ok three.epoch_offsets)
unfolding flush
read-flush_example =
    read-flush accepts three refl three-IsOrdered.0 (omega arith) (omega arith) refl
