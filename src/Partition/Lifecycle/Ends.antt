-- ===== src/Partition/Lifecycle/Ends.antt =====
-- What the starts and stops of a partition leave, whatever calls fail.
use liftbridge.Common.{
  ℕ, ◌≤◌, ◌≡◌, refl, ◌∙◌, ◌⊎◌, inl, inr, ℤ, Bool, true, false, Option, none, some, arith,
  Bool-cases, Option-cases, if◌then◌else◌, eqb_ℤ,
}
use liftbridge.Epochs.{Disk}
use liftbridge.Epochs
use liftbridge.Log.{newest_offset, new_leader_epoch}
use liftbridge.Partition.Queue.{QueueOps}
use liftbridge.Partition.{Partition, truncate_to_hw, truncate_by, truncate_uncommitted}
use liftbridge.Partition.Lifecycle.{
  Call, subscribe, subscribe_replication, subscribe_offsets, unsubscribe, unsubscribe_replication,
  unsubscribe_offsets, Answers, Failure, epoch_failed, truncate_failed, is_error, wrap, try, call,
  stop_loops, stop_leading, stop_following, stop_leading_or_following, start_epoch,
  start_replicating, lead, subscribe_all, become_leader, follow, truncate_first, become_follower,
}

-- Two calls in a row that have succeeded.
pub succeeded :
    {S E : Type 0} (r rest : S × Option E)
    → (if is_error r.1 then r else rest).1 ≡ none
    → (r.1 ≡ none) × (rest.1 ≡ none) × ((if is_error r.1 then r else rest) ≡ rest)
succeeded (x, none) rest h = (refl, h, refl)
succeeded (x, some e) rest h = cc

module _ {Q : Type 0} where
  -- What holds after a success, and after a failure.
  abbrev pub Ends :
      (Partition Q → Type 0) → (Partition Q → Type 0) → Partition Q × Option Failure → Type 0
  Ends P E (p, none) = P p
  Ends P E (p, some e) = E p

  pub try-Ends :
      (P P' E : Partition Q → Type 0) (r : Partition Q × Option Failure)
      (f : Partition Q → Partition Q × Option Failure)
      → Ends P E r
      → ((p : Partition Q) → P p → Ends P' E (f p))
      → Ends P' E (try r f)
  unfolding try
  try-Ends P P' E (p, none) f h k = k p h
  try-Ends P P' E (p, some e) f h k = h

  pub if-Ends :
      (P E : Partition Q → Type 0) (b : Bool) (x y : Partition Q × Option Failure)
      → (b ≡ true → Ends P E x)
      → (b ≡ false → Ends P E y)
      → Ends P E (if b then x else y)
  if-Ends P E true x y h k = h refl
  if-Ends P E false x y h k = k refl

  pub call-Ends :
      (P E : Partition Q → Type 0) (ok : Answers) (c : Call) (p : Partition Q)
      → P p
      → E p
      → Ends P E (call ok c p)
  unfolding call
  call-Ends P E ok c p h e = if-Ends P E (ok c) _ _ (λ done. h) (λ refused. e)

  pub wrap-Ends :
      {A : Type 0} (P E : Partition Q → Type 0) (f : A → Failure) (p : Partition Q) (e : Option A)
      → P p
      → E p
      → Ends P E (p, wrap f e)
  wrap-Ends P E f p none h k = h
  wrap-Ends P E f p (some e) h k = k

  pub wrap-Ends-none :
      {A : Type 0} (P E : Partition Q → Type 0) (f : A → Failure) (p : Partition Q) (e : Option A)
      → P p
      → e ≡ none
      → Ends P E (p, wrap f e)
  wrap-Ends-none P E f p none h k = h
  wrap-Ends-none P E f p (some e) h k = cc

  -- Nothing is asked.
  abbrev pub Any : Partition Q → Type 0
  Any p = Unit

  -- What is excluded.
  abbrev pub Never : Partition Q → Type 0
  Never p = ⊥

  pub Ends-Any : (r : Partition Q × Option Failure) → Ends Any Any r
  Ends-Any (p, none) = tt
  Ends-Any (p, some e) = tt

  pub Ends-weaken :
      (P P' E E' : Partition Q → Type 0) (r : Partition Q × Option Failure)
      → Ends P E r
      → ((p : Partition Q) → P p → P' p)
      → ((p : Partition Q) → E p → E' p)
      → Ends P' E' r
  Ends-weaken P P' E E' (p, none) h f g = f p h
  Ends-weaken P P' E E' (p, some e) h f g = g p h

  pub Ends-fst : (P : Partition Q → Type 0) (r : Partition Q × Option Failure) → Ends P P r → P r.0
  Ends-fst P (p, none) h = h
  Ends-fst P (p, some e) h = h

  -- Neither leading nor following, with no loop of a follower.
  abbrev pub IsIdle : Partition Q → Type 0
  IsIdle p = (p.is_leading ≡ false) × (p.is_following ≡ false) × (p.follower_loops ≡ 0)

  abbrev pub IsFollower : Partition Q → Type 0
  IsFollower p = (p.is_leading ≡ false) × (p.is_following ≡ true) × (p.follower_loops ≡ 1)

  abbrev pub IsLeader : Partition Q → Type 0
  IsLeader p =
      (p.is_leading ≡ true)
      × (p.is_following ≡ false)
      × (p.follower_loops ≡ 0)
      × (1 ≤ p.leader_loops)

  -- One role at most, with the loops that belong to it.
  abbrev pub HasRole : Partition Q → Type 0
  HasRole p = IsIdle p ⊎ (IsFollower p ⊎ IsLeader p)

  -- What starting and stopping leave alone.
  abbrev pub Keeps : Partition Q → Partition Q → Type 0
  Keeps p p' =
      (p'.self ≡ p.self)
      × (p'.replicas ≡ p.replicas)
      × (p'.leader_id ≡ p.leader_id)
      × (p'.leader_epoch ≡ p.leader_epoch)
      × (p'.epoch ≡ p.epoch)
      × (p'.isr ≡ p.isr)
      × (p'.stored_isr ≡ p.stored_isr)

  pub Keeps-refl : (p : Partition Q) → Keeps p p
  Keeps-refl p = (refl, refl, refl, refl, refl, refl, refl)

  Keeps-trans : (p q r : Partition Q) → Keeps p q → Keeps q r → Keeps p r
  Keeps-trans p q r h k =
      (k.0 ∙ h.0, k.1 ∙ h.1, k.2 ∙ h.2, k.3 ∙ h.3, k.4 ∙ h.4, k.5 ∙ h.5, k.6 ∙ h.6)

  abbrev pub Stops : Partition Q → Partition Q → Type 0
  Stops p p' = IsIdle p' × Keeps p p'

  abbrev pub Sound : Partition Q → Partition Q → Type 0
  Sound p p' = HasRole p' × Keeps p p'

  Sound-weaken :
      (p p1 : Partition Q) (r : Partition Q × Option Failure)
      → Keeps p p1
      → Ends (Sound p1) (Sound p1) r
      → Ends (Sound p) (Sound p) r
  Sound-weaken p p1 r k h =
      Ends-weaken (Sound p1) (Sound p) (Sound p1) (Sound p) r h
        (λ p2 s. (s.0, Keeps-trans p p1 p2 k s.1)) (λ p2 s. (s.0, Keeps-trans p p1 p2 k s.1))

  pub try-Sound :
      (p : Partition Q) (r : Partition Q × Option Failure)
      (f : Partition Q → Partition Q × Option Failure)
      → Ends (Sound p) (Sound p) r
      → ((p1 : Partition Q) → HasRole p1 → Ends (Sound p1) (Sound p1) (f p1))
      → Ends (Sound p) (Sound p) (try r f)
  try-Sound p r f h k =
      try-Ends (Sound p) (Sound p) (Sound p) r f h (λ p1 s. Sound-weaken p p1 (f p1) s.1 (k p1 s.0))

  pub call-Sound :
      (ok : Answers) (c : Call) (p : Partition Q)
      → HasRole p
      → Ends (Sound p) (Sound p) (call ok c p)
  call-Sound ok c p h = call-Ends (Sound p) (Sound p) ok c p (h, Keeps-refl p) (h, Keeps-refl p)

  module _ (ops : QueueOps Q) (min_isr : ℕ) (disk : Disk) (ok : Answers) where
    stop_leading-Ends :
        (p : Partition Q)
        → IsLeader p
        → Ends (Stops p) (Sound p) (stop_leading ops min_isr disk ok p)
    unfolding stop_leading stop_loops
    stop_leading-Ends p h =
        let at : Partition Q → Type 0 = (λ p'. IsLeader p' × Keeps p p') in
        let step : (c : Call) (p' : Partition Q) → at p' → Ends at (Sound p) (call ok c p') =
          (λ c p' k. call-Ends at (Sound p) ok c p' k (inr (inr k.0), k.1)) in
        try-Ends at (Stops p) (Sound p) (call ok unsubscribe p) _
          (step unsubscribe p (h, Keeps-refl p))
          (λ p1 h1.
            try-Ends at (Stops p) (Sound p) (call ok unsubscribe_replication p1) _
              (step unsubscribe_replication p1 h1)
              (λ p2 h2.
                try-Ends at (Stops p) (Sound p) (call ok unsubscribe_offsets p2) _
                  (step unsubscribe_offsets p2 h2) (λ p3 h3. ((refl, h3.0.1, h3.0.2), h3.1))))

    pub stop-Ends :
        (p : Partition Q)
        → HasRole p
        → Ends (Stops p) (Sound p) (stop_leading_or_following ops min_isr disk ok p)
    unfolding stop_leading_or_following stop_following
    stop-Ends p h =
        if-Ends (Stops p) (Sound p) p.is_following _ _
          (λ follows. elim h [
            | inl idle ↦ cc (follows, idle.1)
            | inr (inl f) ↦ ((f.0, refl, omega (arith, f.2)), Keeps-refl p)
            | inr (inr l) ↦ cc (follows, l.1)
          ])
          (λ not_following.
            if-Ends (Stops p) (Sound p) p.is_leading _ _
              (λ leads. elim h [
                | inl idle ↦ cc (leads, idle.0)
                | inr (inl f) ↦ cc (leads, f.0)
                | inr (inr l) ↦ stop_leading-Ends p l
              ])
              (λ not_leading. elim h [
                | inl idle ↦ (idle, Keeps-refl p)
                | inr (inl f) ↦ cc (not_following, f.1)
                | inr (inr l) ↦ cc (not_leading, l.0)
              ]))

    -- The subscriptions of a leader, on whatever they fail.
    subscribe_all-Ends :
        (p0 p : Partition Q)
        → Stops p0 p
        → 1 ≤ p.leader_loops
        → Ends (λ p'. IsLeader p' × Keeps p0 p') (Sound p0) (subscribe_all ops min_isr disk ok p)
    unfolding subscribe_all lead
    subscribe_all-Ends p0 p h l =
        let at : Partition Q → Type 0 = (λ p'. Stops p0 p' × (1 ≤ p'.leader_loops)) in
        let End : Partition Q → Type 0 = (λ p'. IsLeader p' × Keeps p0 p') in
        let step : (c : Call) (p' : Partition Q) → at p' → Ends at (Sound p0) (call ok c p') =
          (λ c p' k. call-Ends at (Sound p0) ok c p' k (inl k.0.0, k.0.1)) in
        try-Ends at End (Sound p0) (call ok subscribe p) _ (step subscribe p (h, l)) (λ p1 h1.
          try-Ends at End (Sound p0) (call ok subscribe_replication p1) _
            (step subscribe_replication p1 h1)
            (λ p2 h2.
              try-Ends at End (Sound p0) (call ok subscribe_offsets p2) _
                (step subscribe_offsets p2 h2) (λ p3 h3. ((refl, refl, h3.0.0.2, h3.1), h3.0.1))))

    start_epoch-Ends :
        (p0 : Partition Q) (epoch : ℕ) (p : Partition Q)
        → Stops p0 p
        → Ends (Stops p0) (Sound p0) (start_epoch ops min_isr disk ok epoch p)
    unfolding start_epoch
    start_epoch-Ends p0 epoch p h =
        if-Ends (Stops p0) (Sound p0) p.recovered _ _ (λ again. h)
          (λ fresh.
            wrap-Ends (Stops p0) (Sound p0) epoch_failed
              (record p { log = (new_leader_epoch disk p.log epoch).0 }) _ h (inl h.0, h.1))

    pub become_leader-Ends :
        (epoch : ℕ) (p : Partition Q)
        → HasRole p
        → Ends
            (λ p'. IsLeader p' × Keeps p p')
            (Sound p)
            (become_leader ops min_isr disk ok epoch p)
    unfolding become_leader start_replicating
    become_leader-Ends epoch p h =
        let End : Partition Q → Type 0 = (λ p'. IsLeader p' × Keeps p p') in
        try-Ends (Stops p) End (Sound p) (stop_leading_or_following ops min_isr disk ok p) _
          (stop-Ends p h)
          (λ p1 h1.
            try-Ends (Stops p) End (Sound p) (start_epoch ops min_isr disk ok epoch p1) _
              (start_epoch-Ends p epoch p1 h1)
              (λ p2 h2.
                subscribe_all-Ends p (start_replicating ops min_isr disk ok p2) h2 (omega arith)))

    truncate-Keeps :
        (p : Partition Q) (answer : ℕ → Option ℤ)
        → let p' = (truncate_uncommitted ops min_isr disk p answer).0 in
          (p'.is_leading ≡ p.is_leading)
          × (p'.is_following ≡ p.is_following)
          × (p'.follower_loops ≡ p.follower_loops)
          × Keeps p p'
    unfolding truncate_uncommitted truncate_by truncate_to_hw
    truncate-Keeps p answer = elim (Option-cases (answer (Epochs.latest_epoch p.log.epochs))) [
      | inl silent ↦ elim (Bool-cases (eqb_ℤ (newest_offset p.log) p.log.hw)) [
        | inl at_end ↦ simp (silent, at_end) (refl, refl, refl, Keeps-refl p)
        | inr behind ↦ simp (silent, behind) (refl, refl, refl, Keeps-refl p)
      ]
      | inr (offset, told) ↦ simp told (refl, refl, refl, Keeps-refl p)
    ]

    pub become_follower-Ends :
        (answer : ℕ → Option ℤ) (p : Partition Q)
        → HasRole p
        → Ends
            (λ p'. IsFollower p' × Keeps p p')
            (Sound p)
            (become_follower ops min_isr disk ok answer p)
    unfolding become_follower truncate_first follow
    become_follower-Ends answer p h =
        let End : Partition Q → Type 0 = (λ p'. IsFollower p' × Keeps p p') in
        try-Ends (Stops p) End (Sound p) (stop_leading_or_following ops min_isr disk ok p) _
          (stop-Ends p h)
          (λ p1 h1.
            let k = truncate-Keeps p1 answer in
            let after : Stops p (truncate_uncommitted ops min_isr disk p1 answer).0 = (
              (k.0 ∙ h1.0.0, k.1 ∙ h1.0.1, k.2 ∙ h1.0.2),
              Keeps-trans p p1 (truncate_uncommitted ops min_isr disk p1 answer).0 h1.1 k.3,
            ) in
            try-Ends (Stops p) End (Sound p) (truncate_first ops min_isr disk ok answer p1) _
              (wrap-Ends (Stops p) (Sound p) truncate_failed
                (truncate_uncommitted ops min_isr disk p1 answer).0 _ after (inl after.0, after.1))
              (λ p2 h2. ((refl, refl, omega (arith, h2.0.2)), h2.1)))
