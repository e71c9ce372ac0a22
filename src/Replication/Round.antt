-- ===== src/Replication/Round.antt =====
-- What a follower has after a round of replication.
use liftbridge.Common.{
  ◌+◌, ◌≤◌, ℕ, ◌<◌, ◌^◌, ◌≡◌, ◌≢◌, refl, ap, subst, ◌∙◌, ◌⊎◌, inl, inr, ℤ, pos, ◌+ℤ◌, ◌<ℤ◌, Bool,
  true, false, List, [], ◌∷◌, ◌++◌, map, some, arith, length, append-nil,
}
use liftbridge.Decimal.{Bytes}
use liftbridge.Epochs.{Disk}
use liftbridge.Segment.{check_split}
use liftbridge.Log.{newest_offset}
use liftbridge.Log.Order.{IsValidLog}
use liftbridge.Log.Extend.{AllGood}
use liftbridge.Envelope.{ok, reset, flush, unmarshal_replication_response}
use liftbridge.Envelope.RoundTrip.{IsInt64}
use liftbridge.MessageSet.{put_header}
use liftbridge.Replicator.{Found, Read, found, serve}
use liftbridge.Replicator.Fill.{bytes_of, last_offset, Reaches, Stops, serve-Answers}
use liftbridge.Partition.{Partition}
use liftbridge.Partition.Queue.{QueueOps}
use liftbridge.Partition.Follow.{IsFollowed, Replicates, handle_replication_response-IsFollowed}
use liftbridge.Replication.{Received, handled, crashed, receive}
use liftbridge.Replication.Stored.{
  Stored, found_of, reads_of, entries_of, AreStored, stored_bytes, AreStored-append_left,
  reads_of-HasHeaders, entries_of-Rising, entries_of-stamped, parse_message_set-stored_bytes,
}

-- The messages that were taken of those that the reader returned.
record Splits (ss : List Stored) (taken : List Found) (left : List Read) : Type 0 where
  front : List Stored
  back : List Stored
  whole : ss ≡ front ++ back
  bytes : bytes_of taken ≡ stored_bytes front

cons_bytes :
    (s : Stored) (f : Found) (taken : List Found) (front : List Stored)
    → found_of s ≡ f
    → bytes_of taken ≡ stored_bytes front
    → bytes_of (f ∷ taken) ≡ stored_bytes (s ∷ front)
unfolding bytes_of
cons_bytes s f taken front first later =
    subst (λ (g : Found). bytes_of (g ∷ taken) ≡ stored_bytes (s ∷ front)) first
      (ap (λ bs. put_header s.offset s.message ++ (s.message.content ++ bs)) later)

reads_of-split :
    (ss : List Stored) (taken : List Found) (left : List Read)
    → reads_of ss ≡ map found taken ++ left
    → Splits ss taken left
reads_of-split ss [] left h = record {
  front = [];
  back = ss;
  whole = refl;
  bytes = unfold bytes_of in refl;
}
reads_of-split [] (f ∷ taken) left h = cc
reads_of-split (s ∷ ss) (f ∷ taken) left h =
    let first : found_of s ≡ f = cc in
    let later : reads_of ss ≡ map found taken ++ left = cc in
    let r = reads_of-split ss taken left later in
    record {
      front = s ∷ r.front;
      back = r.back;
      whole = ap (λ xs. s ∷ xs) r.whole;
      bytes = cons_bytes s f taken r.front first r.bytes;
    }

-- The message fits into a response of 1 MiB on its own, with its headers of 28 bytes.
abbrev pub FitsResponse : ℕ → Stored → Type 0
FitsResponse epoch s = length (found_of s).message + 28 + length (reset epoch) ≤ 1048576

-- A first message that fits into a response is taken.
takes_first :
    (epoch : ℕ) (newest offset : ℤ) (s : Stored) (ss : List Stored) (out : Bytes)
    (taken : List Found) (left : List Read)
    → offset <ℤ newest
    → FitsResponse epoch s
    → out ≡ reset epoch ++ bytes_of taken
    → reads_of (s ∷ ss) ≡ map found taken ++ left
    → Stops newest (last_offset offset taken) out left
    → (f : Found) × (fs : List Found) × (taken ≡ f ∷ fs)
takes_first epoch newest offset s ss out (f ∷ fs) left behind fits content split stops =
    (f, fs, refl)
takes_first epoch newest offset s ss out [] left behind fits content split (inl level) =
    absurd (unfold last_offset in omega (arith, level, behind))
takes_first epoch newest offset s ss out [] left behind fits content split (inr (inl full)) =
    let e : length out ≡ length (reset epoch ++ bytes_of []) = ap length content in
    absurd (unfold reset bytes_of in omega (arith, e, full))
takes_first epoch newest offset s ss out [] left behind fits content split
      (inr (inr (f, rest, next, over))) =
    let same : found_of s ≡ f = cc in
    let plain : out ≡ reset epoch = unfold bytes_of in content ∙ append-nil (reset epoch) in
    let size : length out ≡ length (reset epoch) = ap length plain in
    let same_length : length (found_of s).message ≡ length f.message =
      ap (λ (g : Found). length g.message) same in
    absurd (omega (arith, size, same_length, over, fits))

first_taken :
    (s : Stored) (ss : List Stored) (f : Found) (fs : List Found) (left : List Read)
    → reads_of (s ∷ ss) ≡ map found (f ∷ fs) ++ left
    → (r : Splits ss fs left) × (bytes_of (f ∷ fs) ≡ stored_bytes (s ∷ r.front))
first_taken s ss f fs left h =
    let first : found_of s ≡ f = cc in
    let later : reads_of ss ≡ map found fs ++ left = cc in
    let r = reads_of-split ss fs left later in (r, cons_bytes s f fs r.front first r.bytes)

-- What a follower does with a response, if it does not crash.
abbrev pub Handles : {Q : Type 0} → Received Q → (Partition Q → ℕ → Type 0) → Type 0
Handles (handled r) P = Replicates r P
Handles crashed P = ⊥

-- The first response gives the follower the first message and more of the others.
pub record Replicated {Q : Type 0} (p : Partition Q) (hw : ℤ) (s : Stored) (ss : List Stored)
    (sent : List Bytes) (receives : Bytes → Received Q) : Type 0 where
  pub more : List Stored
  pub back : List Stored
  pub whole : ss ≡ more ++ back
  pub response : Bytes
  pub retries : List Bytes
  pub first : sent ≡ response ∷ retries
  pub follows : Handles (receives response) (λ p' n. IsFollowed p p' hw (entries_of 0 (s ∷ more)) n)

module _ {Q : Type 0} (ops : QueueOps Q) (min_isr : ℕ) (crc : Bytes → ℕ) (disk : Disk)
    (p : Partition Q) (roll now : ℤ) where
  receive-stored :
      (hw : ℤ) (bs : Bytes) (s : Stored) (ss : List Stored)
      → unmarshal_replication_response crc bs ≡ ok (p.leader_epoch, hw, stored_bytes (s ∷ ss))
      → AreStored (newest_offset p.log +ℤ pos 1) (s ∷ ss)
      → IsValidLog p.log
      → AllGood disk
      → p.is_following ≡ true
      → (check_split p.log.active roll now ≡ false) ⊎ (p.log.active.records ≢ [])
      → Handles
          (receive ops min_isr crc disk p roll now true bs)
          (λ p' n. IsFollowed p p' hw (entries_of 0 (s ∷ ss)) n)
  unfolding receive entries_of
  receive-stored hw bs s ss read stored v good follows room =
      let lo = newest_offset p.log +ℤ pos 1 in
      let entries = parse_message_set-stored_bytes 0 lo (s ∷ ss) stored in
      rw (read, entries)
        (handle_replication_response-IsFollowed ops min_isr disk p roll now hw _ _ v good follows
          (entries_of-Rising lo 0 (s ∷ ss) stored) (entries_of-stamped lo 0 (s ∷ ss) stored) room)

  -- A request of a follower of the leader's own epoch, for what is behind the newest offset of its log,
  -- where the leader's reader returns the messages behind it up to the leader's newest one, as they are
  -- stored, and the first of them fits into a response: the first response that the leader sends makes the
  -- follower append that message and further ones, in the order of the leader's log with nothing left out
  -- between them and with the leader's offsets, timestamps, epochs and keys; its log stays well-formed,
  -- and its high watermark does not fall and is not below the leader's.
  pub serve-receive :
      (respond : Bytes → Bool) (hw newest : ℤ) (s : Stored) (ss : List Stored)
      → p.leader_epoch < 2 ^ 64
      → IsInt64 hw
      → AreStored (newest_offset p.log +ℤ pos 1) (s ∷ ss)
      → Reaches newest (newest_offset p.log) (reads_of (s ∷ ss))
      → newest_offset p.log <ℤ newest
      → FitsResponse p.leader_epoch s
      → IsValidLog p.log
      → AllGood disk
      → p.is_following ≡ true
      → (check_split p.log.active roll now ≡ false) ⊎ (p.log.active.records ≢ [])
      → Replicated p hw s ss
          (serve respond p.leader_epoch hw newest (newest_offset p.log) (some (reads_of (s ∷ ss))))
          (receive ops min_isr crc disk p roll now true)
  serve-receive respond hw newest s ss epoch_fits hw_fits stored reaches behind fits v good follows
        room =
      let a =
        serve-Answers crc respond p.leader_epoch hw newest (newest_offset p.log) (reads_of (s ∷ ss))
          epoch_fits hw_fits (reads_of-HasHeaders (s ∷ ss)) reaches in
      let (f, fs, taken) =
        takes_first p.leader_epoch newest (newest_offset p.log) s ss a.buffer a.batch.taken
          a.batch.left behind fits a.batch.content a.batch.split a.batch.stops in
      let c =
        first_taken s ss f fs a.batch.left
          (a.batch.split ∙ ap (λ ts. map found ts ++ a.batch.left) taken) in
      let read = a.is_read ∙ ap (λ bs. ok (p.leader_epoch, hw, bs)) (ap bytes_of taken ∙ c.1) in
      record {
        more = c.0.front;
        back = c.0.back;
        whole = c.0.whole;
        response = flush a.buffer hw;
        retries = a.retries;
        first = a.first;
        follows =
            receive-stored hw (flush a.buffer hw) s c.0.front read
              (AreStored-append_left (newest_offset p.log +ℤ pos 1) (s ∷ c.0.front) c.0.back
                (subst (λ xs. AreStored (newest_offset p.log +ℤ pos 1) (s ∷ xs)) c.0.whole stored))
              v good follows room;
      }
