-- ===== src/Partition/Follow.antt =====
-- A partition on a follower.
use liftbridge.Common.{
  ℕ, suc, ◌≡◌, ◌≢◌, refl, sym, ap, subst, ◌∙◌, ◌⊎◌, inl, inr, ℤ, pos, ◌+ℤ◌, ◌≤ℤ◌, ◌<ℤ◌, eqb_ℤ,
  ltb_ℤ, true, false, not, List, [], ◌∷◌, ◌++◌, Option, none, some, arith, ◌==◌, length, keep,
  Bool-cases, Option-cases, All, le→not_ltb_ℤ, map,
}
use liftbridge.Segment.{Record, Segment, next_offset, check_split}
use liftbridge.Segment.Write.{Rising, end_of}
use liftbridge.Epochs.{Disk}
use liftbridge.Epochs
use liftbridge.Log.{
  Log, segments, newest_offset, set_high_watermark, truncate, entries_for_message_set,
  append_message_set,
}
use liftbridge.Log
use liftbridge.Log.Order.{view, Chain, IsValidLog, newest_offset-next, next_offset-le}
use liftbridge.Log.Watermark.{set_high_watermark_lem, set_high_watermark_same}
use liftbridge.Log.Extend.{AllGood, Appends}
use liftbridge.Log.Replicate.{append_message_set-IsReplicated, IsReplicated}
use liftbridge.Log.Truncate.{truncate-IsTruncated}
use liftbridge.Log.Cut.{is_before, keep_front}
use liftbridge.Partition.Queue.{QueueOps}
use liftbridge.Partition.{
  Partition, messages, Response, replicated, panicked_on_append, never_returns, truncate_to_hw,
  truncate_by, truncate_uncommitted, after_append, replicate_data, handle_replication_response,
}

last-next-le :
    (lo : ℤ) (ss : List Segment) (s : Segment) → Chain lo (ss ++ s ∷ []) → lo ≤ℤ next_offset s
last-next-le lo [] s h = omega (arith, h.0, next_offset-le s h.1)
last-next-le lo (t ∷ ss) s h =
    omega (arith, h.0, next_offset-le t h.1, last-next-le (next_offset t) ss s h.2)

none_beyond :
    (lo : ℤ) (ss : List Segment) (s : Segment)
    → Chain lo (ss ++ s ∷ [])
    → All (λ t. ltb_ℤ (next_offset s) (next_offset t) ≡ false) (ss ++ s ∷ [])
none_beyond lo [] s h = (le→not_ltb_ℤ (next_offset s) (next_offset s) (omega arith), tt)
none_beyond lo (t ∷ ss) s h = (
  le→not_ltb_ℤ (next_offset s) (next_offset t) (last-next-le (next_offset t) ss s h.2),
  none_beyond (next_offset t) ss s h.2,
)

-- Every record of a well-formed log lies before one past its newest offset.
keep_before_end :
    (l : Log)
    → IsValidLog l
    → keep (is_before (newest_offset l +ℤ pos 1)) (view (segments l)) ≡ view (segments l)
keep_before_end l v = rw (newest_offset-next l) (
    keep_front (next_offset l.active) (pos 0) (segments l) v.chain
      (none_beyond (pos 0) l.older l.active v.chain))

abbrev pub last_kept : ℤ → Option ℤ → ℤ
last_kept hw none = hw
last_kept hw (some offset) = offset

watermark-IsValidLog : (l : Log) (hw : ℤ) → IsValidLog l → IsValidLog (set_high_watermark l hw)
watermark-IsValidLog l hw v =
    let same = set_high_watermark_same l hw in
    record {
      chain = rw (same.0, same.1) v.chain;
      open_active = ap (λ (s : Segment). s.closed) same.1 ∙ v.open_active;
    }

-- What a follower makes of messages that it appends.
pub record IsFollowed {Q : Type 0} (p p' : Partition Q) (hw : ℤ) (rs : List Record) (count : ℕ)
    : Type 0 where
  pub valid : IsValidLog p'.log
  pub position : ℕ
  pub records :
      view (segments p'.log) ≡ view (segments p.log) ++ entries_for_message_set position rs
  pub counted : count ≡ length rs
  pub not_lower : p.log.hw ≤ℤ p'.log.hw
  pub not_behind : hw ≤ℤ p'.log.hw
  pub same_role : (p'.is_following ≡ p.is_following) × (p'.leader_epoch ≡ p.leader_epoch)
  pub next : newest_offset p'.log +ℤ pos 1 ≡ end_of (newest_offset p.log +ℤ pos 1) rs
  pub not_empty : p'.log.active.records ≢ []

abbrev pub Replicates : {Q : Type 0} → Response Q → (Partition Q → ℕ → Type 0) → Type 0
Replicates (replicated p n) P = P p n
Replicates panicked_on_append P = ⊥
Replicates never_returns P = ⊥

length-map : (rs : List Record) → length (map (λ (r : Record). r.offset) rs) ≡ length rs
length-map [] = refl
length-map (r ∷ rs) = ap suc (length-map rs)

module _ {Q : Type 0} (ops : QueueOps Q) (min_isr : ℕ) where
  -- A follower that falls back to its high watermark keeps exactly the records up to it, and the
  -- high watermark; whether it truncates or has nothing to truncate.
  pub truncate_to_hw_lem :
      (disk : Disk) (p : Partition Q)
      → IsValidLog p.log
      → let l' = (truncate_to_hw ops min_isr disk p).0.log in
        (view (segments l') ≡ keep (is_before (p.log.hw +ℤ pos 1)) (view (segments p.log)))
        × (l'.hw ≡ p.log.hw)
  unfolding truncate_to_hw
  truncate_to_hw_lem disk p v = elim (Bool-cases (eqb_ℤ (newest_offset p.log) p.log.hw)) [
    | inl at_end ↦
        let e : newest_offset p.log ≡ p.log.hw = ground (arith, at_end) in
        rw at_end (
          sym (
              subst
                (λ n. keep (is_before (n +ℤ pos 1)) (view (segments p.log)) ≡ view (segments p.log))
                e (keep_before_end p.log v)),
          refl,
        )
    | inr behind ↦
        let cut = truncate-IsTruncated disk p.log (p.log.hw +ℤ pos 1) v in
        rw behind (cut.0.records, cut.1)
  ]

  -- A follower that joins a new leader keeps exactly the records up to the offset that the leader
  -- gives as the last one of the follower's last epoch; without an answer, those up to its high
  -- watermark.
  pub truncate_uncommitted_lem :
      (disk : Disk) (p : Partition Q) (answer : ℕ → Option ℤ)
      → IsValidLog p.log
      → let last = last_kept p.log.hw (answer (Epochs.latest_epoch p.log.epochs)) in
        let l' = (truncate_uncommitted ops min_isr disk p answer).0.log in
        (view (segments l') ≡ keep (is_before (last +ℤ pos 1)) (view (segments p.log)))
        × (l'.hw ≡ p.log.hw)
  unfolding truncate_uncommitted truncate_by
  truncate_uncommitted_lem disk p answer v =
      elim (Option-cases (answer (Epochs.latest_epoch p.log.epochs))) [
        | inl silent ↦ rw silent (truncate_to_hw_lem disk p v)
        | inr (offset, told) ↦
            let cut = truncate-IsTruncated disk p.log (offset +ℤ pos 1) v in
            rw told (cut.0.records, cut.1)
      ]

  after_append-IsFollowed :
      (p q : Partition Q) (hw : ℤ) (rs : List Record) (o : Log.Outcome)
      → view (segments q.log) ≡ view (segments p.log)
      → p.log.hw ≤ℤ q.log.hw
      → hw ≤ℤ q.log.hw
      → (q.is_following ≡ p.is_following) × (q.leader_epoch ≡ p.leader_epoch)
      → newest_offset q.log ≡ newest_offset p.log
      → Appends o (λ l' offsets. IsReplicated q.log l' rs offsets)
      → Replicates (after_append ops min_isr q o) (λ p' n. IsFollowed p p' hw rs n)
  unfolding after_append
  after_append-IsFollowed p q hw rs (Log.appended l offsets) same lower behind role end_ h =
      record {
        valid = h.valid;
        position = h.position;
        records = h.records ∙ ap (λ xs. xs ++ entries_for_message_set h.position rs) same;
        counted = ap length h.offsets_of ∙ length-map rs;
        not_lower = rw h.watermark lower;
        not_behind = rw h.watermark behind;
        same_role = role;
        next = h.next ∙ ap (λ lo. end_of (lo +ℤ pos 1) rs) end_;
        not_empty = h.not_empty;
      }
  after_append-IsFollowed p q hw rs (Log.failed l e) same lower behind role end_ h = h
  after_append-IsFollowed p q hw rs Log.panicked same lower behind role end_ h = h
  after_append-IsFollowed p q hw rs Log.stuck same lower behind role end_ h = h

  -- A follower that gets messages from the leader of its own epoch, whose offsets rise from one past
  -- the newest offset of its log on, where the disk obeys and the active segment is not both due for
  -- a split and empty: it appends them all with the leader's offsets and counts them; the log stays
  -- well-formed; the high watermark does not fall, and is not below the leader's.
  pub handle_replication_response-IsFollowed :
      (disk : Disk) (p : Partition Q) (roll now : ℤ) (hw : ℤ) (r : Record) (rs : List Record)
      → IsValidLog p.log
      → AllGood disk
      → p.is_following ≡ true
      → Rising (newest_offset p.log +ℤ pos 1) (r ∷ rs)
      → All (λ (x : Record). pos 0 <ℤ x.timestamp) (r ∷ rs)
      → (check_split p.log.active roll now ≡ false) ⊎ (p.log.active.records ≢ [])
      → Replicates
          (handle_replication_response ops min_isr disk p roll now true p.leader_epoch hw
            (messages r rs))
          (λ p' n. IsFollowed p p' hw (r ∷ rs) n)
  unfolding handle_replication_response replicate_data
  handle_replication_response-IsFollowed disk p roll now hw r rs v good follows rising stamped
        room =
      let q : Partition Q = record p { log = set_high_watermark p.log hw } in
      let same = set_high_watermark_same p.log hw in
      let set = set_high_watermark_lem p.log hw in
      let next : newest_offset q.log ≡ newest_offset p.log = same.2 in
      let no_leader : not p.is_following ≡ false = rw follows refl in
      let new : ltb_ℤ r.offset (newest_offset q.log +ℤ pos 1) ≡ false =
        rw next (le→not_ltb_ℤ r.offset (newest_offset p.log +ℤ pos 1) rising.0) in
      let same_epoch : (p.leader_epoch == p.leader_epoch) ≡ true = ground arith in
      simp (no_leader, same_epoch, new)
        (after_append-IsFollowed p q hw (r ∷ rs) _ (rw (same.0, same.1) refl) set.0 set.1
          (refl, refl) next
          (append_message_set-IsReplicated disk q.log roll now r rs
            (watermark-IsValidLog p.log hw v) good (rw next rising) stamped (rw same.1 room)))
