-- ===== src/Replication/CatchUp.antt =====
-- A follower that asks again and again catches up with its leader.
use liftbridge.Common.{
  ℕ, zero, suc, ◌≤◌, ◌<◌, ◌^◌, ◌≡◌, ◌≢◌, refl, sym, ap, subst, ◌∙◌, ◌⊎◌, inl, inr, ℤ, pos, ◌+ℤ◌,
  +ℤ_parts, ◌≤ℤ◌, ◌<ℤ◌, Bool, true, false, List, [], ◌∷◌, ◌++◌, append-nil, map, some, arith,
  length, length-append, All, All-append_right,
}
use liftbridge.Decimal.{Bytes}
use liftbridge.Epochs.{Disk}
use liftbridge.Segment.{check_split}
use liftbridge.Log.{segments, newest_offset}
use liftbridge.Log.Order.{view, IsValidLog}
use liftbridge.Log.Extend.{AllGood}
use liftbridge.Envelope.RoundTrip.{IsInt64}
use liftbridge.Replicator.{serve}
use liftbridge.Replicator.Fill.{Reaches}
use liftbridge.Partition.{Partition, replicated, panicked_on_append, never_returns}
use liftbridge.Partition.Queue.{QueueOps}
use liftbridge.Partition.Follow.{IsFollowed}
use liftbridge.Replication.{Received, handled, crashed, receive}
use liftbridge.Replication.Stored.{Stored, reads_of, entries_of, AreStored}
use liftbridge.Replication.Round.{Handles, FitsResponse, serve-receive}
use liftbridge.Replication.Sequence.{
  last_stored, bare, bare_entries, last_stored-append, last_stored-le, last_stored-Reaches,
  AreStored-append_right, end_of-entries, cancel_one, map-append, bare-entries_for_message_set,
  join_records,
}

is_handled :
    {Q : Type 0} (r : Received Q) (P : Partition Q → ℕ → Type 0)
    → Handles r P
    → (p' : Partition Q) × (n : ℕ) × (r ≡ handled (replicated p' n)) × P p' n
is_handled (handled (replicated p' n)) P h = (p', n, refl, h)
is_handled (handled panicked_on_append) P h = absurd h
is_handled (handled never_returns) P h = absurd h
is_handled crashed P h = absurd h

module _ {Q : Type 0} (ops : QueueOps Q) (min_isr : ℕ) (crc : Bytes → ℕ) (disk : Disk)
    (roll now : ℤ) (respond : Bytes → Bool) (hw newest : ℤ) where
  -- Rounds of a follower with its leader: each time the reader returns the messages that the follower
  -- does not have yet, the follower gets the first response, and has then one of them or more.
  pub data Rounds : Partition Q → List Stored → Partition Q → Type 0 where
    all_there : {p : Partition Q} → Rounds p [] p
    a_round :
        {p p1 p' : Partition Q} {s : Stored} {ss : List Stored} (more back : List Stored)
        (response : Bytes) (retries : List Bytes) (n : ℕ)
        → ss ≡ more ++ back
        → serve respond p.leader_epoch hw newest (newest_offset p.log) (some (reads_of (s ∷ ss)))
          ≡ response ∷ retries
        → receive ops min_isr crc disk p roll now true response ≡ handled (replicated p1 n)
        → Rounds p1 back p'
        → Rounds p (s ∷ ss) p'

  -- A follower that can get messages from a leader of its epoch, and that has nothing wrong.
  pub record IsReady (p : Partition Q) (ss : List Stored) : Type 0 where
    pub epoch_fits : p.leader_epoch < 2 ^ 64
    pub stored : AreStored (newest_offset p.log +ℤ pos 1) ss
    pub ends : last_stored (newest_offset p.log) ss ≡ newest
    pub small : All (FitsResponse p.leader_epoch) ss
    pub valid : IsValidLog p.log
    pub follows : p.is_following ≡ true
    pub room : (check_split p.log.active roll now ≡ false) ⊎ (p.log.active.records ≢ [])

  -- A follower that has all the messages behind its own.
  pub record CatchesUp (p : Partition Q) (ss : List Stored) : Type 0 where
    pub end : Partition Q
    pub rounds : Rounds p ss end
    pub valid : IsValidLog end.log
    pub reaches : newest_offset end.log ≡ newest
    pub records :
        map bare (view (segments end.log)) ≡ map bare (view (segments p.log)) ++ bare_entries ss
    pub not_lower : p.log.hw ≤ℤ end.log.hw
    pub watermark : (ss ≡ []) ⊎ (hw ≤ℤ end.log.hw)

  -- What is left of the messages when a round has brought some.
  what_is_left :
      (p p1 : Partition Q) (s : Stored) (more back : List Stored) (n : ℕ)
      → IsReady p (s ∷ more ++ back)
      → IsFollowed p p1 hw (entries_of 0 (s ∷ more)) n
      → IsReady p1 back
  what_is_left p p1 s more back n r f =
      let o = newest_offset p.log in
      let next : newest_offset p1.log ≡ last_stored o (s ∷ more) =
        cancel_one (newest_offset p1.log) (last_stored o (s ∷ more))
          (f.next ∙ end_of-entries o 0 (s ∷ more)) in
      record {
        epoch_fits = rw f.same_role.1 r.epoch_fits;
        stored = rw next (AreStored-append_right o (s ∷ more) back r.stored);
        ends =
            ap (λ x. last_stored x back) next ∙ sym (last_stored-append o (s ∷ more) back) ∙ r.ends;
        small =
            rw f.same_role.1
              (All-append_right (FitsResponse p.leader_epoch) (s ∷ more) back r.small);
        valid = f.valid;
        follows = f.same_role.0 ∙ r.follows;
        room = inr f.not_empty;
      }

  records_of_round :
      (p p1 : Partition Q) (s : Stored) (more : List Stored) (n : ℕ)
      → IsFollowed p p1 hw (entries_of 0 (s ∷ more)) n
      → map bare (view (segments p1.log))
        ≡ map bare (view (segments p.log)) ++ bare_entries (s ∷ more)
  records_of_round p p1 s more n f =
      ap (map bare) f.records
      ∙ map-append (view (segments p.log)) _
      ∙ ap (λ rs. map bare (view (segments p.log)) ++ rs)
          (bare-entries_for_message_set f.position (entries_of 0 (s ∷ more)))

  behind_newest :
      (o : ℤ) (s : Stored) (ss : List Stored)
      → AreStored (o +ℤ pos 1) (s ∷ ss)
      → last_stored o (s ∷ ss) ≡ newest
      → o <ℤ newest
  behind_newest o s ss h e =
      rw (← e) (omega (arith, h.0, +ℤ_parts o (pos 1), last_stored-le s.offset ss h.3))

  by_length :
      (k : ℕ) (p : Partition Q) (ss : List Stored)
      → length ss ≤ k
      → IsInt64 hw
      → AllGood disk
      → IsReady p ss
      → CatchesUp p ss
  by_length k p [] few fits good r = record {
    end = p;
    rounds = all_there;
    valid = r.valid;
    reaches = r.ends;
    records = unfold entries_of in sym (append-nil (map bare (view (segments p.log))));
    not_lower = omega arith;
    watermark = inl refl;
  }
  by_length zero p (s ∷ ss) few fits good r = absurd (omega (arith, few))
  by_length (suc k) p (s ∷ ss) few fits good r =
      let o = newest_offset p.log in
      let reaches : Reaches newest o (reads_of (s ∷ ss)) =
        subst (λ x. Reaches x o (reads_of (s ∷ ss))) r.ends (last_stored-Reaches o (s ∷ ss)) in
      let got =
        serve-receive ops min_isr crc disk p roll now respond hw newest s ss r.epoch_fits fits
          r.stored reaches (behind_newest o s ss r.stored r.ends) r.small.0 r.valid good r.follows
          r.room in
      let (p1, n, is_p1, f) =
        is_handled (receive ops min_isr crc disk p roll now true got.response)
          (λ p' n. IsFollowed p p' hw (entries_of 0 (s ∷ got.more)) n) got.follows in
      let split : IsReady p (s ∷ got.more ++ got.back) =
        subst (λ xs. IsReady p (s ∷ xs)) got.whole r in
      let sizes = ap length got.whole ∙ length-append got.more got.back in
      let rest =
        by_length k p1 got.back (omega (arith, few, sizes)) fits good
          (what_is_left p p1 s got.more got.back n split f) in
      record {
        end = rest.end;
        rounds =
            a_round got.more got.back got.response got.retries n got.whole got.first is_p1
              rest.rounds;
        valid = rest.valid;
        reaches = rest.reaches;
        records =
            join_records (view (segments p.log)) (view (segments p1.log))
              (view (segments rest.end.log)) s ss got.more got.back got.whole
              (records_of_round p p1 s got.more n f) rest.records;
        not_lower = omega (arith, rest.not_lower, f.not_lower);
        watermark = inr (omega (arith, rest.not_lower, f.not_behind));
      }

  -- A follower of the leader's epoch catches up, whatever lies behind the newest offset of its log
  -- and however the responses cut it: there are rounds of requests, each answered by the leader's
  -- response to the newest offset of the follower's log at the time, after which the newest offset
  -- is the leader's one and the log is well-formed, has the records that it had, and behind them
  -- each of the leader's messages once and in order, with offset, timestamp, epoch and key; the
  -- high watermark has not fallen, and is not below the leader's if there was a message. That holds
  -- where every message fits into a response on its own, the leader's log and watermark stay as
  -- they are meanwhile, and the disk obeys.
  pub receive-CatchesUp :
      (p : Partition Q) (ss : List Stored)
      → IsInt64 hw
      → AllGood disk
      → IsReady p ss
      → CatchesUp p ss
  receive-CatchesUp p ss fits good r = by_length (length ss) p ss (omega arith) fits good r
