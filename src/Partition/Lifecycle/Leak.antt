-- ===== src/Partition/Lifecycle/Leak.antt =====
-- What a leader leaves running when a subscription is refused.
use liftbridge.Common.{ℕ, suc, ap, ◌≢◌, ◌≡◌, refl, true, false, ◌&&◌, Option, none, some}
use liftbridge.Decimal.{Bytes}
use liftbridge.Epochs.{Disk}
use liftbridge.Log.{new_leader_epoch}
use liftbridge.Log.Obedient.{new_leader_epoch-none}
use liftbridge.Partition.Queue.{QueueOps}
use liftbridge.Partition.{Partition}
use liftbridge.Partition.Lifecycle.{
  Call, subscribe, subscribe_replication, subscribe_offsets, close_log, Answers, Failure,
  epoch_failed, call, stop_leading_or_following, start_epoch, start_replicating, lead,
  subscribe_all, become_leader, close, mark_closed,
}
use liftbridge.Partition.Lifecycle.Ends.{
  Ends, Never, try-Ends, call-Ends, if-Ends, wrap-Ends-none, Ends-fst,
}

module _ {Q : Type 0} (ops : QueueOps Q) (min_isr : ℕ) where
  -- A partition without a role, and with so many sets of loops of a leader.
  abbrev pub RunsIdle : ℕ → Partition Q → Type 0
  RunsIdle n p = (p.is_leading ≡ false) × (p.is_following ≡ false) × (p.leader_loops ≡ n)

  module _ (disk : Disk) (ok : Answers) where
    stop-RunsIdle :
        (n : ℕ) (P E : Partition Q → Type 0) (p : Partition Q)
        → RunsIdle n p
        → P p
        → Ends P E (stop_leading_or_following ops min_isr disk ok p)
    unfolding stop_leading_or_following
    stop-RunsIdle n P E p h k =
        if-Ends P E p.is_following _ _ (λ follows. cc (follows, h.1))
          (λ not_. if-Ends P E p.is_leading _ _ (λ leads. cc (leads, h.0)) (λ idle. k))

    close-RunsIdle :
        (n : ℕ) (p : Partition Q)
        → RunsIdle n p
        → Ends (RunsIdle n) (RunsIdle n) (close ops min_isr disk ok p)
    unfolding close mark_closed
    close-RunsIdle n p h =
        let K : Partition Q → Type 0 = RunsIdle n in
        if-Ends K K p.is_closed _ _ (λ already. h)
          (λ still_open.
            try-Ends K K K (call ok close_log p) _ (call-Ends K K ok close_log p h h) (λ p1 h1.
              try-Ends K K K (stop_leading_or_following ops min_isr disk ok p1) _
                (stop-RunsIdle n K K p1 h1 h1) (λ p2 h2. h2)))

    call-RunsIdle :
        (n : ℕ) (c : Call) (p : Partition Q)
        → RunsIdle n p
        → Ends (λ p'. RunsIdle n p' × (ok c ≡ true)) (RunsIdle n) (call ok c p)
    unfolding call
    call-RunsIdle n c p h =
        if-Ends (λ p'. RunsIdle n p' × (ok c ≡ true)) (RunsIdle n) (ok c) _ _ (λ done. (h, done))
          (λ refused. h)

    subscribe_all-RunsIdle :
        (n : ℕ) (p : Partition Q)
        → (ok subscribe && ok subscribe_replication && ok subscribe_offsets) ≡ false
        → RunsIdle n p
        → Ends Never (RunsIdle n) (subscribe_all ops min_isr disk ok p)
    unfolding subscribe_all lead
    subscribe_all-RunsIdle n p refused h =
        let E : Partition Q → Type 0 = RunsIdle n in
        try-Ends (λ p'. E p' × (ok subscribe ≡ true)) Never E (call ok subscribe p) _
          (call-RunsIdle n subscribe p h)
          (λ p1 h1.
            try-Ends (λ p'. E p' × (ok subscribe_replication ≡ true)) Never E
              (call ok subscribe_replication p1) _ (call-RunsIdle n subscribe_replication p1 h1.0)
              (λ p2 h2.
                try-Ends (λ p'. E p' × (ok subscribe_offsets ≡ true)) Never E
                  (call ok subscribe_offsets p2) _ (call-RunsIdle n subscribe_offsets p2 h2.0)
                  (λ p3 h3.
                    let none_refused = simp (h1.1, h2.1, h3.1) at refused in cc none_refused)))

    module _ (obeys : (content : Bytes) → disk content ≡ true) where
      become_leader-RunsIdle :
          (n epoch : ℕ) (p : Partition Q)
          → RunsIdle n p
          → (ok subscribe && ok subscribe_replication && ok subscribe_offsets) ≡ false
          → Ends Never (RunsIdle (suc n)) (become_leader ops min_isr disk ok epoch p)
      unfolding become_leader start_replicating start_epoch
      become_leader-RunsIdle n epoch p h refused =
          let E : Partition Q → Type 0 = RunsIdle (suc n) in
          try-Ends (RunsIdle n) Never E (stop_leading_or_following ops min_isr disk ok p) _
            (stop-RunsIdle n (RunsIdle n) E p h h)
            (λ p1 h1.
              try-Ends (RunsIdle n) Never E (start_epoch ops min_isr disk ok epoch p1) _
                (if-Ends (RunsIdle n) E p1.recovered _ _ (λ again. h1)
                  (λ fresh.
                    wrap-Ends-none (RunsIdle n) E epoch_failed
                      (record p1 { log = (new_leader_epoch disk p1.log epoch).0 }) _ h1
                      (new_leader_epoch-none disk obeys p1.log epoch)))
                (λ p2 h2.
                  subscribe_all-RunsIdle (suc n) (start_replicating ops min_isr disk ok p2) refused
                    (h2.0, h2.1, ap suc h2.2)))

  Ends-Never :
      (E : Partition Q → Type 0) (r : Partition Q × Option Failure)
      → Ends Never E r
      → (r.1 ≢ none) × E r.0
  Ends-Never E (p, none) h = elim h [ ]
  Ends-Never E (p, some e) h = (λ k. cc k, h)

  -- If a server without a role is to lead a partition, on a disk that takes every write, and one of
  -- the three subscriptions is refused, becoming the leader fails, and the loops that were started
  -- keep running: closing the partition, on whatever calls, stops none of them.
  pub become_leader_leaks :
      (disk disk' : Disk) (ok ok' : Answers) (epoch : ℕ) (p : Partition Q)
      → ((content : Bytes) → disk content ≡ true)
      → p.is_leading ≡ false
      → p.is_following ≡ false
      → (ok subscribe && ok subscribe_replication && ok subscribe_offsets) ≡ false
      → let failed = become_leader ops min_isr disk ok epoch p in
        (failed.1 ≢ none)
        × (failed.0.is_leading ≡ false)
        × ((close ops min_isr disk' ok' failed.0).0.leader_loops ≡ suc p.leader_loops)
  become_leader_leaks disk disk' ok ok' epoch p obeys not_leading not_following refused =
      let n = suc p.leader_loops in
      let failed = become_leader ops min_isr disk ok epoch p in
      let h = Ends-Never (RunsIdle n) failed (
        become_leader-RunsIdle disk ok obeys p.leader_loops epoch p
          (not_leading, not_following, refl) refused) in
      let closed =
        Ends-fst (RunsIdle n) (close ops min_isr disk' ok' failed.0)
          (close-RunsIdle disk' ok' n failed.0 h.1) in
      (h.0, h.1.0, closed.2)
