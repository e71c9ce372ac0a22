-- ===== src/Replication/Stored.antt =====
-- Messages of the leader's log as its reader returns them, and as bytes.
use liftbridge.Common.{
  ℕ, zero, suc, ◌+◌, ◌<◌, ◌≡◌, refl, ℤ, pos, ◌+ℤ◌, ◌≤ℤ◌, ◌<ℤ◌, false, List, [], ◌∷◌, ◌++◌, arith,
  length, leb, All,
}
use liftbridge.Decimal.{Bytes}
use liftbridge.Segment.{Record}
use liftbridge.Segment.Write.{Rising}
use liftbridge.MessageSet.{
  header_len, Encoded, put_header, key_of, parsed, parse, parse_message_set,
}
use liftbridge.MessageSet.RoundTrip.{FitsFields, parse-put, length-put_header, length-entry}
use liftbridge.Replicator.{Found, Read, found}
use liftbridge.Replicator.Fill.{HasHeaders}

-- A message of the leader's log.
pub record Stored : Type 0 where
  pub offset : ℤ
  pub message : Encoded

-- What the reader of the leader's log returns for it.
abbrev pub found_of : Stored → Found
found_of s = record {
  offset = s.offset;
  headers = put_header s.offset s.message;
  message = s.message.content;
}

abbrev pub reads_of : List Stored → List Read
reads_of [] = []
reads_of (s ∷ ss) = found (found_of s) ∷ reads_of ss

-- The entries of messages, one behind the other.
unfoldable pub entries_of : ℕ → List Stored → List Record
entries_of base [] = []
entries_of base (s ∷ ss) =
    (record {
      offset = s.offset;
      timestamp = s.message.timestamp;
      leader_epoch = s.message.leader_epoch;
      position = base;
      size = header_len + length s.message.content;
      key = key_of s.message.content;
    })
    ∷ entries_of (base + (header_len + length s.message.content)) ss

-- Messages of a log from an offset on, stamped after the epoch.
abbrev pub AreStored : ℤ → List Stored → Type 0
AreStored lo [] = Unit
AreStored lo (s ∷ ss) =
    (lo ≤ℤ s.offset)
    × (pos 0 <ℤ s.message.timestamp)
    × FitsFields s.offset s.message
    × AreStored (s.offset +ℤ pos 1) ss

abbrev pub stored_bytes : List Stored → Bytes
stored_bytes [] = []
stored_bytes (s ∷ ss) = put_header s.offset s.message ++ (s.message.content ++ stored_bytes ss)

pub AreStored-append_left :
    (lo : ℤ) (ss ts : List Stored) → AreStored lo (ss ++ ts) → AreStored lo ss
AreStored-append_left lo [] ts h = tt
AreStored-append_left lo (s ∷ ss) ts h =
    (h.0, h.1, h.2, AreStored-append_left (s.offset +ℤ pos 1) ss ts h.3)

pub reads_of-HasHeaders : (ss : List Stored) → HasHeaders (reads_of ss)
reads_of-HasHeaders [] = tt
reads_of-HasHeaders (s ∷ ss) = (length-put_header s.offset s.message, reads_of-HasHeaders ss)

pub entries_of-Rising :
    (lo : ℤ) (base : ℕ) (ss : List Stored) → AreStored lo ss → Rising lo (entries_of base ss)
unfolding entries_of
entries_of-Rising lo base [] h = tt
entries_of-Rising lo base (s ∷ ss) h = (h.0, entries_of-Rising (s.offset +ℤ pos 1) _ ss h.3)

pub entries_of-stamped :
    (lo : ℤ) (base : ℕ) (ss : List Stored)
    → AreStored lo ss
    → All (λ (r : Record). pos 0 <ℤ r.timestamp) (entries_of base ss)
unfolding entries_of
entries_of-stamped lo base [] h = tt
entries_of-stamped lo base (s ∷ ss) h = (h.1, entries_of-stamped (s.offset +ℤ pos 1) _ ss h.3)

parse-stored_bytes :
    (k base : ℕ) (lo : ℤ) (ss : List Stored)
    → length (stored_bytes ss) < k
    → AreStored lo ss
    → parse k base (stored_bytes ss) ≡ parsed (entries_of base ss)
unfolding entries_of parse
parse-stored_bytes zero base lo ss small h = absurd (omega (arith, small))
parse-stored_bytes (suc k) base lo [] small h = refl
parse-stored_bytes (suc k) base lo (s ∷ ss) small h =
    let all = length-entry s.offset s.message (stored_bytes ss) in
    parse-put k base s.offset s.message (stored_bytes ss) _ h.2 (
      parse-stored_bytes k (base + (header_len + length s.message.content)) (s.offset +ℤ pos 1) ss
        (omega (arith, all, small)) h.3)

pub parse_message_set-stored_bytes :
    (base : ℕ) (lo : ℤ) (ss : List Stored)
    → AreStored lo ss
    → parse_message_set base (stored_bytes ss) ≡ parsed (entries_of base ss)
unfolding parse_message_set
parse_message_set-stored_bytes base lo [] h = unfold entries_of in refl
parse_message_set-stored_bytes base lo (s ∷ ss) h =
    let all = length-entry s.offset s.message (stored_bytes ss) in
    let some_bytes = h.2.not_empty in
    let long : leb (length (stored_bytes (s ∷ ss))) header_len ≡ false =
      ground (arith, all, some_bytes) in
    rw long
      (parse-stored_bytes (suc (length (stored_bytes (s ∷ ss)))) base lo (s ∷ ss) (omega arith) h)
