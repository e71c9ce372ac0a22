-- ===== src/Replicator/InSync.antt =====
-- When the leader asks that a follower leaves or enters the in-sync set.
use liftbridge.Common.{
  ℕ, ◌+◌, ◌≤◌, ◌<◌, ◌≡◌, refl, inl, inr, ◌≤ℤ◌, ◌<ℤ◌, leb_ℤ, le→leb_ℤ, lt→not_leb_ℤ, Bool, true,
  false, Option, arith, if◌then◌else◌, Bool-cases, List,
}
use liftbridge.Decimal.{Bytes}
use liftbridge.Log.{newest_offset}
use liftbridge.Partition.Queue.{QueueOps}
use liftbridge.Partition.{Partition}
use liftbridge.Partition.Keeps.{update_isr_latest_offset-Keeps}
use liftbridge.Replicator.{
  Replicator, Read, Asked, handle_request, Ask, nothing, to_shrink, to_expand, request_of,
  out_of_sync, in_isr, tick,
}

-- A replica that keeps up is not removed, and one that does not is not added.
abbrev pub StaysIn : {Q : Type 0} → ℕ → ℕ → Partition Q → Replicator → Ask → Type 0
StaysIn stream id p r asked =
    asked ≡ (if in_isr p r.replica then nothing else to_expand (request_of stream id r))

abbrev pub Leaves : {Q : Type 0} → ℕ → ℕ → Partition Q → Replicator → Ask → Type 0
Leaves stream id p r asked =
    asked ≡ (if in_isr p r.replica then to_shrink (request_of stream id r) else nothing)

module _ {Q : Type 0} where
  tick-StaysIn :
      (stream id : ℕ) (p : Partition Q) (r : Replicator) (now : ℕ)
      → out_of_sync r now ≡ false
      → StaysIn stream id p r (tick stream id p r now)
  unfolding tick
  tick-StaysIn stream id p r now h = elim (Bool-cases (in_isr p r.replica)) [
    | inl member ↦ rw (h, member) refl
    | inr absent ↦ rw (h, absent) refl
  ]

  tick-Leaves :
      (stream id : ℕ) (p : Partition Q) (r : Replicator) (now : ℕ)
      → out_of_sync r now ≡ true
      → Leaves stream id p r (tick stream id p r now)
  unfolding tick
  tick-Leaves stream id p r now h = elim (Bool-cases (in_isr p r.replica)) [
    | inl member ↦ rw (h, member) refl
    | inr absent ↦ rw (h, absent) refl
  ]

recent :
    (r : Replicator) (now : ℕ)
    → now ≤ r.last_seen + r.max_lag_time
    → now ≤ r.last_caught_up + r.max_lag_time
    → out_of_sync r now ≡ false
unfolding out_of_sync
recent r now seen caught = ground (arith, seen, caught)

late :
    (r : Replicator) (now : ℕ) → r.last_caught_up + r.max_lag_time < now → out_of_sync r now ≡ true
unfolding out_of_sync
late r now h = ground (arith, h)

module _ {Q : Type 0} (ops : QueueOps Q) (min_isr : ℕ) where
  caught_up_replicator :
      (respond : Bytes → Bool) (reads : Option (List Read)) (p : Partition Q) (r : Replicator)
      (req : Asked)
      → newest_offset p.log ≤ℤ req.offset
      → (handle_request ops min_isr respond reads p r req).replicator
        ≡ record r { last_seen = req.received; last_caught_up = req.received; waiter = true }
  unfolding handle_request
  caught_up_replicator respond reads p r req h =
      let up : leb_ℤ (newest_offset p.log) req.offset ≡ true =
        le→leb_ℤ (newest_offset p.log) req.offset h in
      rw ((update_isr_latest_offset-Keeps ops min_isr p r.replica req.offset).same_log, up) refl

  behind_replicator :
      (respond : Bytes → Bool) (reads : Option (List Read)) (p : Partition Q) (r : Replicator)
      (req : Asked)
      → req.offset <ℤ newest_offset p.log
      → (handle_request ops min_isr respond reads p r req).replicator
        ≡ record r { last_seen = req.received }
  unfolding handle_request
  behind_replicator respond reads p r req h =
      let down : leb_ℤ (newest_offset p.log) req.offset ≡ false =
        lt→not_leb_ℤ (newest_offset p.log) req.offset h in
      rw ((update_isr_latest_offset-Keeps ops min_isr p r.replica req.offset).same_log, down) refl

  -- After a request for the end of the leader's log, and for as long as the allowed lag, no tick asks
  -- for the removal of the follower, and each asks that it is added if it is out of the in-sync set.
  pub handle_request-StaysIn :
      (respond : Bytes → Bool) (reads : Option (List Read)) (p later : Partition Q) (r : Replicator)
      (req : Asked) (stream id now : ℕ)
      → newest_offset p.log ≤ℤ req.offset
      → now ≤ req.received + r.max_lag_time
      → StaysIn stream id later r
          (tick stream id later (handle_request ops min_isr respond reads p r req).replicator now)
  unfolding request_of
  handle_request-StaysIn respond reads p later r req stream id now h soon =
      rw (caught_up_replicator respond reads p r req h)
        (tick-StaysIn stream id later _ now (recent _ now soon soon))

  -- A request for less does not count: when the follower was last at the end longer ago than the
  -- allowed lag, a tick asks for its removal, if it is in the in-sync set.
  pub handle_request-Leaves :
      (respond : Bytes → Bool) (reads : Option (List Read)) (p later : Partition Q) (r : Replicator)
      (req : Asked) (stream id now : ℕ)
      → req.offset <ℤ newest_offset p.log
      → r.last_caught_up + r.max_lag_time < now
      → Leaves stream id later r
          (tick stream id later (handle_request ops min_isr respond reads p r req).replicator now)
  unfolding request_of
  handle_request-Leaves respond reads p later r req stream id now h old =
      rw (behind_replicator respond reads p r req h)
        (tick-Leaves stream id later _ now (late _ now old))
