-- ===== src/Epochs/Lookup.antt =====
-- `LastOffsetForLeaderEpoch`: the binary search against a search from the front.
use liftbridge.Common.{
  ℕ, ◌+◌, ◌%◌, ◌≤◌, ◌<◌, ◌≡◌, refl, ap, ◌∙◌, ℤ, minus_one, true, List, [], ◌∷◌, Option, none, some,
  arith, ltb, leb, if◌then◌else◌, All, get_elem?,
}
use liftbridge.Common.Search.{first_where, IsUpward, search-index_where, get_elem?-index_where}
use liftbridge.Epochs.{EpochOffset, Cache, find_epoch, last_offset_for_leader_epoch, epoch_mod}
use liftbridge.Epochs.Order.{IsOrdered, IsOrderedList}

-- From an entry on, the epochs are at least that entry's.
pub epochs_rise :
    (epoch : ℕ) (e : EpochOffset) (es : List EpochOffset)
    → IsOrderedList (e ∷ es)
    → epoch ≤ e.leader_epoch
    → All (λ f. leb epoch f.leader_epoch ≡ true) es
epochs_rise epoch e [] h le = tt
epochs_rise epoch e (f ∷ es) h le =
    (ground (arith, h.0.0), epochs_rise epoch f es h.1 (omega arith))

epochs-IsUpward :
    (epoch : ℕ) (es : List EpochOffset)
    → IsOrderedList es
    → IsUpward (λ e. leb epoch e.leader_epoch) es
epochs-IsUpward epoch [] h = tt
epochs-IsUpward epoch (e ∷ es) h =
    (λ at. epochs_rise epoch e es h (ground arith), epochs-IsUpward epoch es h.1)

-- The start of the first entry of a later epoch, or -1 if there is none.
abbrev pub start_after : ℕ → List EpochOffset → ℤ
start_after epoch [] = minus_one
start_after epoch (e ∷ es) =
    if ltb epoch e.leader_epoch then e.start_offset else start_after epoch es

abbrev start_or_none : Option EpochOffset → ℤ
start_or_none none = minus_one
start_or_none (some e) = e.start_offset

start_after-first_where :
    (epoch : ℕ) (es : List EpochOffset)
    → start_or_none (first_where (λ e. leb (epoch + 1) e.leader_epoch) es) ≡ start_after epoch es
start_after-first_where epoch [] = refl
start_after-first_where epoch (e ∷ es) = ground (arith, start_after-first_where epoch es)

-- On an ordered cache the binary search finds the first entry from an epoch on.
pub find_epoch-first_where :
    (l : Cache) (epoch : ℕ)
    → IsOrdered l
    → find_epoch l epoch ≡ first_where (λ e. leb epoch e.leader_epoch) l.epoch_offsets
unfolding find_epoch
find_epoch-first_where l epoch h =
    ap (get_elem? l.epoch_offsets)
      (search-index_where _ l.epoch_offsets (epochs-IsUpward epoch l.epoch_offsets h.0))
    ∙ get_elem?-index_where _ l.epoch_offsets

-- The answer to a follower's leader epoch request, for an ordered cache and an epoch that can be
-- increased: the start of the first later epoch, or -1 if there is no later one.
pub last_offset_for_leader_epoch_lem :
    (l : Cache) (epoch : ℕ)
    → IsOrdered l
    → epoch + 1 < epoch_mod
    → last_offset_for_leader_epoch l epoch ≡ start_after epoch l.epoch_offsets
unfolding last_offset_for_leader_epoch
last_offset_for_leader_epoch_lem l epoch h lt =
    let e : (epoch + 1) % epoch_mod ≡ epoch + 1 = omega arith in
    ap start_or_none (ap (find_epoch l) e ∙ find_epoch-first_where l (epoch + 1) h)
    ∙ start_after-first_where epoch l.epoch_offsets
