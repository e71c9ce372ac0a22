-- ===== src/Partition/Lifecycle/Roles.antt =====
-- The role of a partition on this server, through every failure of the calls.
use liftbridge.Common.{
  ℕ, ◌≤◌, ◌≡◌, ◌⊎◌, inl, inr, ℤ, ltb, true, false, Option, arith, Bool-cases, ◌==◌, if◌then◌else◌,
}
use liftbridge.Segment.{contains}
use liftbridge.Epochs.{Disk}
use liftbridge.Partition.Queue.{QueueOps}
use liftbridge.Partition.{Partition}
use liftbridge.Partition.Lifecycle.{
  close_log, delete_log, Answers, Failure, try, call, stop_leading_or_following,
  start_leading_or_following, set_leader, finish_recovery, start_recovered, mark_closed, close,
  pause, delete,
}
use liftbridge.Partition.Lifecycle.Ends.{
  Ends, try-Sound, call-Sound, if-Ends, Ends-weaken, Ends-fst, IsIdle, IsFollower, IsLeader,
  HasRole, Keeps, Keeps-refl, Stops, Sound, stop-Ends, become_leader-Ends, become_follower-Ends,
}

module _ {Q : Type 0} (ops : QueueOps Q) (min_isr : ℕ) where
  -- What a partition is after it was told its leader: the leader, or a follower if it is a replica.
  abbrev pub Plays : Partition Q → Partition Q → Type 0
  Plays p p' =
      if p.leader_id == p.self
      then IsLeader p'
      else if contains p.self p.replicas
      then IsFollower p'
      else HasRole p'

  -- A call of a function of the partition, with the answers of the calls that it makes.
  pub data Step (p p' : Partition Q) : Type 0 where
    leads :
        (disk : Disk) (ok : Answers) (answer : ℕ → Option ℤ) (leader epoch : ℕ)
        → p' ≡ (set_leader ops min_isr disk ok answer leader epoch p).0
        → Step p p'
    starts :
        (disk : Disk) (ok : Answers) (answer : ℕ → Option ℤ)
        → p' ≡ (start_recovered ops min_isr disk ok answer p).0
        → Step p p'
    pauses : (disk : Disk) (ok : Answers) → p' ≡ (pause ops min_isr disk ok p).0 → Step p p'
    closes : (disk : Disk) (ok : Answers) → p' ≡ (close ops min_isr disk ok p).0 → Step p p'
    deletes : (disk : Disk) (ok : Answers) → p' ≡ (delete ops min_isr disk ok p).0 → Step p p'

  -- A history of a partition.
  pub data Life (p : Partition Q) : Partition Q → Type 0 where
    begin : Life p p
    then_ : {p1 p2 : Partition Q} → Life p p1 → Step p1 p2 → Life p p2

  -- Not leading and following at once.
  abbrev pub IsSingle : Partition Q → Type 0
  IsSingle p = (p.is_leading ≡ false) ⊎ (p.is_following ≡ false)

  -- A role, and a leader epoch that is no lower.
  abbrev pub GoesOn : Partition Q → Partition Q → Type 0
  GoesOn p p' = HasRole p' × (p.leader_epoch ≤ p'.leader_epoch)

  module _ (disk : Disk) (ok : Answers) where
    -- The role fits the leader that the partition has, if the start succeeds; otherwise the role
    -- that is left is a possible one.
    pub start-Ends :
        (answer : ℕ → Option ℤ) (p : Partition Q)
        → HasRole p
        → Ends
            (λ p'. Plays p p' × Keeps p p')
            (Sound p)
            (start_leading_or_following ops min_isr disk ok answer p)
    unfolding start_leading_or_following
    start-Ends answer p h =
        let End : Partition Q → Type 0 = (λ p'. Plays p p' × Keeps p p') in
        if-Ends End (Sound p) (p.leader_id == p.self) _ _
          (λ mine. rw mine (become_leader-Ends ops min_isr disk ok p.leader_epoch p h))
          (λ other.
            if-Ends End (Sound p) (contains p.self p.replicas) _ _
              (λ in_. rw (other, in_) (become_follower-Ends ops min_isr disk ok answer p h))
              (λ out. rw (other, out) (h, Keeps-refl p)))

    Plays-HasRole : (p p' : Partition Q) → Plays p p' → HasRole p'
    Plays-HasRole p p' h = elim (Bool-cases (p.leader_id == p.self)) [
      | inl mine ↦ inr (inr (simp mine at h))
      | inr other ↦ elim (Bool-cases (contains p.self p.replicas)) [
        | inl in_ ↦ inr (inl (simp (other, in_) at h))
        | inr out ↦ simp (other, out) at h
      ]
    ]

    start-Sound :
        (answer : ℕ → Option ℤ) (p : Partition Q)
        → HasRole p
        → Ends (Sound p) (Sound p) (start_leading_or_following ops min_isr disk ok answer p)
    start-Sound answer p h =
        Ends-weaken (λ p'. Plays p p' × Keeps p p') (Sound p) (Sound p) (Sound p)
          (start_leading_or_following ops min_isr disk ok answer p) (start-Ends answer p h)
          (λ p' k. (Plays-HasRole p p' k.0, k.1)) (λ p' k. k)

    stop-Sound :
        (p : Partition Q)
        → HasRole p
        → Ends (Sound p) (Sound p) (stop_leading_or_following ops min_isr disk ok p)
    stop-Sound p h =
        Ends-weaken (Stops p) (Sound p) (Sound p) (Sound p)
          (stop_leading_or_following ops min_isr disk ok p) (stop-Ends ops min_isr disk ok p h)
          (λ p' k. (inl k.0, k.1)) (λ p' k. k)

    close-Sound :
        (p : Partition Q) → HasRole p → Ends (Sound p) (Sound p) (close ops min_isr disk ok p)
    unfolding close mark_closed
    close-Sound p h =
        if-Ends (Sound p) (Sound p) p.is_closed _ _ (λ already. (h, Keeps-refl p))
          (λ still_open. try-Sound p (call ok close_log p) _ (call-Sound ok close_log p h) (λ p1 h1.
            try-Sound p1 (stop_leading_or_following ops min_isr disk ok p1) _ (stop-Sound p1 h1)
              (λ p2 h2. (h2, Keeps-refl p2))))

    delete-Sound :
        (p : Partition Q) → HasRole p → Ends (Sound p) (Sound p) (delete ops min_isr disk ok p)
    unfolding delete
    delete-Sound p h =
        try-Sound p (call ok delete_log p) _ (call-Sound ok delete_log p h) stop-Sound

    Sound-GoesOn :
        (p : Partition Q) (r : Partition Q × Option Failure)
        → Ends (Sound p) (Sound p) r
        → GoesOn p r.0
    Sound-GoesOn p r h = let s = Ends-fst (Sound p) r h in (s.0, omega (arith, s.1.3))

    set_leader-GoesOn :
        (answer : ℕ → Option ℤ) (leader epoch : ℕ) (p : Partition Q)
        → HasRole p
        → GoesOn p (set_leader ops min_isr disk ok answer leader epoch p).0
    unfolding set_leader
    set_leader-GoesOn answer leader epoch p h =
        let p1 : Partition Q = record p { leader_id = leader; leader_epoch = epoch } in
        Ends-fst (GoesOn p) (set_leader ops min_isr disk ok answer leader epoch p) (
          if-Ends (GoesOn p) (GoesOn p) (ltb epoch p.leader_epoch) _ _ (λ stale. (h, omega arith))
            (λ fresh.
              let later : p.leader_epoch ≤ epoch = ground (arith, fresh) in
              if-Ends (GoesOn p) (GoesOn p) p.recovered _ _ (λ recovering. (h, later))
                (λ running.
                  Ends-weaken (Sound p1) (GoesOn p) (Sound p1) (GoesOn p)
                    (start_leading_or_following ops min_isr disk ok answer p1)
                    (start-Sound answer p1 h) (λ p' k. (k.0, omega (arith, k.1.3, later)))
                    (λ p' k. (k.0, omega (arith, k.1.3, later))))))

    start_recovered-GoesOn :
        (answer : ℕ → Option ℤ) (p : Partition Q)
        → HasRole p
        → GoesOn p (start_recovered ops min_isr disk ok answer p).0
    unfolding start_recovered finish_recovery
    start_recovered-GoesOn answer p h = elim (Bool-cases p.recovered) [
      | inl recovering ↦ elim (Bool-cases p.paused) [
        | inl paused ↦ simp (recovering, paused) (h, omega arith)
        | inr running ↦
            simp (recovering, running)
              (Sound-GoesOn p
                (try (start_leading_or_following ops min_isr disk ok answer p)
                  (finish_recovery ops min_isr disk ok))
                (try-Sound p (start_leading_or_following ops min_isr disk ok answer p)
                  (finish_recovery ops min_isr disk ok) (start-Sound answer p h)
                  (λ p1 h1. (h1, Keeps-refl p1))))
      ]
      | inr started ↦ simp started (h, omega arith)
    ]

    close-GoesOn : (p : Partition Q) → HasRole p → GoesOn p (close ops min_isr disk ok p).0
    close-GoesOn p h = Sound-GoesOn p (close ops min_isr disk ok p) (close-Sound p h)

    delete-GoesOn : (p : Partition Q) → HasRole p → GoesOn p (delete ops min_isr disk ok p).0
    delete-GoesOn p h = Sound-GoesOn p (delete ops min_isr disk ok p) (delete-Sound p h)

  Step-GoesOn : (p p' : Partition Q) → HasRole p → Step p p' → GoesOn p p'
  unfolding pause
  Step-GoesOn p p' h (leads disk ok answer leader epoch e) =
      rw e (set_leader-GoesOn disk ok answer leader epoch p h)
  Step-GoesOn p p' h (starts disk ok answer e) = rw e (start_recovered-GoesOn disk ok answer p h)
  Step-GoesOn p p' h (pauses disk ok e) = rw e (close-GoesOn disk ok (record p { paused = true }) h)
  Step-GoesOn p p' h (closes disk ok e) = rw e (close-GoesOn disk ok p h)
  Step-GoesOn p p' h (deletes disk ok e) = rw e (delete-GoesOn disk ok p h)

  -- A role and the leader epoch over a history.
  Life-GoesOn : (p p' : Partition Q) → HasRole p → Life p p' → GoesOn p p'
  Life-GoesOn p p' h begin = (h, omega arith)
  Life-GoesOn p p' h (then_ {p1} l s) =
      let before = Life-GoesOn p p1 h l in
      let after = Step-GoesOn p1 p' before.0 s in (after.0, omega (arith, before.1, after.1))

  HasRole-IsSingle : (p : Partition Q) → HasRole p → IsSingle p
  HasRole-IsSingle p (inl idle) = inl idle.0
  HasRole-IsSingle p (inr (inl follower)) = inl follower.0
  HasRole-IsSingle p (inr (inr leader)) = inr leader.1

  -- Take a partition that neither leads nor follows, with no loop of a follower, and any number of
  -- changes of its leader, recoveries, pauses, closes and deletions, one after the other, with any
  -- answers of the calls that they make. Then it never leads and follows at once, and its leader
  -- epoch is no lower than at the start.
  pub Life-IsSingle :
      (p p' : Partition Q) → IsIdle p → Life p p' → IsSingle p' × (p.leader_epoch ≤ p'.leader_epoch)
  Life-IsSingle p p' idle l =
      let end_ = Life-GoesOn p p' (inl idle) l in (HasRole-IsSingle p' end_.0, end_.1)

  -- If `SetLeader` succeeds on a partition that is not recovering, the server leads the partition
  -- when it is the new leader, follows it when it is another replica, and knows the leader and the
  -- epoch. If it fails, a role is left that is a possible one.
  pub set_leader_lem :
      (disk : Disk) (ok : Answers) (answer : ℕ → Option ℤ) (leader epoch : ℕ) (p : Partition Q)
      → HasRole p
      → p.recovered ≡ false
      → Ends
          (λ p'.
            Plays (record p { leader_id = leader }) p'
            × (p'.leader_id ≡ leader)
            × (p'.leader_epoch ≡ epoch)
            × (p.leader_epoch ≤ epoch))
          HasRole
          (set_leader ops min_isr disk ok answer leader epoch p)
  unfolding set_leader
  set_leader_lem disk ok answer leader epoch p h running =
      let p1 : Partition Q = record p { leader_id = leader; leader_epoch = epoch } in
      let End : Partition Q → Type 0 = (λ p'.
        Plays p1 p'
        × (p'.leader_id ≡ leader)
        × (p'.leader_epoch ≡ epoch)
        × (p.leader_epoch ≤ epoch)) in
      if-Ends End HasRole (ltb epoch p.leader_epoch) _ _ (λ stale. h)
        (λ fresh.
          if-Ends End HasRole p.recovered _ _ (λ recovering. cc (recovering, running))
            (λ not_.
              let later : p.leader_epoch ≤ epoch = ground (arith, fresh) in
              Ends-weaken (λ p'. Plays p1 p' × Keeps p1 p') End (Sound p1) HasRole
                (start_leading_or_following ops min_isr disk ok answer p1)
                (start-Ends disk ok answer p1 h) (λ p' k. (k.0, k.1.2, k.1.3, later))
                (λ p' k. k.0)))

  -- A leader of an epoch that is not lower is known afterwards, whatever fails, and nothing else of
  -- what is stored has changed.
  pub set_leader-Keeps :
      (disk : Disk) (ok : Answers) (answer : ℕ → Option ℤ) (leader epoch : ℕ) (p : Partition Q)
      → HasRole p
      → p.leader_epoch ≤ epoch
      → Keeps
          (record p { leader_id = leader; leader_epoch = epoch })
          (set_leader ops min_isr disk ok answer leader epoch p).0
  unfolding set_leader
  set_leader-Keeps disk ok answer leader epoch p h later =
      let p1 : Partition Q = record p { leader_id = leader; leader_epoch = epoch } in
      Ends-fst (Keeps p1) (set_leader ops min_isr disk ok answer leader epoch p) (
        if-Ends (Keeps p1) (Keeps p1) (ltb epoch p.leader_epoch) _ _
          (λ stale. absurd (ground (arith, stale, later)))
          (λ fresh.
            if-Ends (Keeps p1) (Keeps p1) p.recovered _ _ (λ recovering. Keeps-refl p1)
              (λ running.
                Ends-weaken (Sound p1) (Keeps p1) (Sound p1) (Keeps p1)
                  (start_leading_or_following ops min_isr disk ok answer p1)
                  (start-Sound disk ok answer p1 h) (λ p' k. k.1) (λ p' k. k.1))))
