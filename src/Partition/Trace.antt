-- ===== src/Partition/Trace.antt =====
-- Histories of a leader: the handlers of server/partition.go in any order.
use liftbridge.Common.{
  ℕ, ◌≡◌, refl, sym, subst, ◌⊎◌, inl, inr, ℤ, ◌≤ℤ◌, ltb, Bool, true, List, [], ◌∷◌, ◌++◌, Option,
  none, some, arith, length, Bool-cases, All, All-append,
}
use liftbridge.Log.{set_high_watermark}
use liftbridge.Log.Watermark.{set_high_watermark_lem}
use liftbridge.Partition.Queue.{
  Ack, Policy, leader, all, none_wanted, take_while, drop_while, QueueOps, QueueLaws,
}
use liftbridge.Partition.{
  Partition, Round, ran, stopped, min_latest, is_leader_policy, update_isr_latest_offset,
  remove_from_isr, add_to_isr, put_pending, process_pending, after_take, commit,
}
use liftbridge.Partition.Keeps.{
  Keeps, accepted, update_isr_latest_offset-Keeps, remove_from_isr-Keeps, add_to_isr-Keeps,
}
use liftbridge.Partition.Commit.{is_ready, send_ack-All, send_committed-All}

-- An ack that a message is safe: it was wanted from the leader alone, or the message is committed.
abbrev pub IsCovered : ℤ → Ack → Type 0
IsCovered hw a = (a.policy ≡ leader) ⊎ (a.offset ≤ℤ hw)

take_while-All :
    (f : Ack → Bool) (P : Ack → Type 0) (acks : List Ack)
    → ((a : Ack) → f a ≡ true → P a)
    → All P (take_while f acks)
take_while-All f P [] h = tt
take_while-All f P (a ∷ acks) h = elim (Bool-cases (f a)) [
  | inl here ↦ rw (here, take_while) (h a here, take_while-All f P acks h)
  | inr stop_ ↦ rw (stop_, take_while) tt
]

IsCovered-weaken :
    (hw hw' : ℤ) (acks : List Ack) → hw ≤ℤ hw' → All (IsCovered hw) acks → All (IsCovered hw') acks
IsCovered-weaken hw hw' [] le h = tt
IsCovered-weaken hw hw' (a ∷ acks) le h = (
  elim h.0 [ inl by_leader ↦ inl by_leader | inr below ↦ inr (omega (arith, below, le)) ],
  IsCovered-weaken hw hw' acks le h.1,
)

policy-leader : (q : Policy) → is_leader_policy q ≡ true → q ≡ leader
unfolding is_leader_policy
policy-leader leader h = refl
policy-leader all h = cc
policy-leader none_wanted h = cc

module _ {Q : Type 0} (ops : QueueOps Q) (min_isr : ℕ) where
  -- What a leader does at once, with the acks that it sends.
  pub data Step (p : Partition Q) (sent : List Ack) (p' : Partition Q) : Type 0 where
    reports :
        (id : ℕ) (offset : ℤ)
        → p' ≡ update_isr_latest_offset ops min_isr p id offset
        → sent ≡ []
        → Step p sent p'
    shrinks : (id : ℕ) → remove_from_isr ops min_isr p id ≡ some p' → sent ≡ [] → Step p sent p'
    expands : (id : ℕ) → add_to_isr ops min_isr p id ≡ some p' → sent ≡ [] → Step p sent p'
    pends : (a : Ack) → process_pending ops min_isr p a ≡ some (p', sent) → Step p sent p'
    commits : commit ops min_isr p ≡ ran p' sent → Step p sent p'

  -- A history, with all acks that are sent in it.
  pub data Trace (p : Partition Q) : List Ack → Partition Q → Type 0 where
    start : Trace p [] p
    then_ :
        {sent later : List Ack} {q r : Partition Q}
        → Trace p sent q
        → Step q later r
        → Trace p (sent ++ later) r

  module _ (Holds : Q → List Ack → Type 0) (laws : QueueLaws ops Holds) where
    -- What a history keeps: the high watermark does not fall, the queue is not disposed, and the
    -- acks that were sent are covered.
    pub record IsSafe (p : Partition Q) (sent : List Ack) (p' : Partition Q) : Type 0 where
      pub not_lower : p.log.hw ≤ℤ p'.log.hw
      pub waiting : List Ack
      pub holds : Holds p'.queue waiting
      pub covered : All (IsCovered p'.log.hw) sent

    Keeps-IsSafe :
        (p p' : Partition Q) (sent waiting : List Ack)
        → Holds p.queue waiting
        → sent ≡ []
        → Keeps ops min_isr p p'
        → IsSafe p sent p'
    Keeps-IsSafe p p' sent waiting h e k = record {
      not_lower = rw k.same_log (omega arith);
      waiting = waiting;
      holds = subst (λ q. Holds q waiting) (sym k.same_queue) h;
      covered = subst (All (IsCovered p'.log.hw)) (sym e) tt;
    }

    abbrev SafeIf : Partition Q → Option (Partition Q × List Ack) → Type 0
    SafeIf p none = Unit {0}
    SafeIf p (some (p', sent)) = IsSafe p sent p'

    pending-SafeIf :
        (p : Partition Q) (a : Ack) (waiting : List Ack)
        → Holds p.queue waiting
        → SafeIf p (process_pending ops min_isr p a)
    unfolding process_pending put_pending
    pending-SafeIf p a waiting h =
        let (q, puts, holds) = laws.puts p.queue waiting a h in
        rw (puts, put_pending)
          (record {
            not_lower = omega arith;
            waiting = waiting ++ a ∷ [];
            holds = holds;
            covered = elim (Bool-cases (is_leader_policy a.policy)) [
              | inl early ↦
                  rw early
                    (send_ack-All (IsCovered p.log.hw) a (inl (policy-leader a.policy early)))
              | inr later ↦ rw later tt
            ];
          })

    abbrev SafeRound : Partition Q → Round Q → Type 0
    SafeRound p (ran p' sent) = IsSafe p sent p'
    SafeRound p (stopped p') = Unit {0}

    commit-SafeRound :
        (p : Partition Q) (waiting : List Ack)
        → Holds p.queue waiting
        → SafeRound p (commit ops min_isr p)
    unfolding commit after_take
    commit-SafeRound p waiting h = elim (Bool-cases (ltb (length p.isr) min_isr)) [
      | inl few ↦
          rw few (record { not_lower = omega arith; waiting = waiting; holds = h; covered = tt })
      | inr enough ↦
          let m = min_latest p.isr in
          let set = set_high_watermark_lem p.log m in
          let hw' = (set_high_watermark p.log m).hw in
          let (q, takes, left) = laws.takes p.queue waiting (is_ready m) h in
          rw (enough, takes, after_take)
            (record {
              not_lower = set.0;
              waiting = drop_while (is_ready m) waiting;
              holds = left;
              covered = send_committed-All (IsCovered hw') (take_while (is_ready m) waiting) (
                  take_while-All (is_ready m) (IsCovered hw') waiting (λ a ready.
                    let le : a.offset ≤ℤ m = ground (arith, ready) in
                    inr (omega (arith, le, set.1))));
            })
    ]

    Step-IsSafe :
        (p p' : Partition Q) (sent waiting : List Ack)
        → Holds p.queue waiting
        → Step p sent p'
        → IsSafe p sent p'
    unfolding update_isr_latest_offset
    Step-IsSafe p p' sent waiting h (reports id offset e s) = Keeps-IsSafe p p' sent waiting h s (
        subst (Keeps ops min_isr p) (sym e)
          (update_isr_latest_offset-Keeps ops min_isr p id offset))
    Step-IsSafe p p' sent waiting h (shrinks id e s) =
        Keeps-IsSafe p p' sent waiting h s
          (accepted ops min_isr p p' _ e (remove_from_isr-Keeps ops min_isr p id))
    Step-IsSafe p p' sent waiting h (expands id e s) =
        Keeps-IsSafe p p' sent waiting h s
          (accepted ops min_isr p p' _ e (add_to_isr-Keeps ops min_isr p id))
    Step-IsSafe p p' sent waiting h (pends a e) = subst (SafeIf p) e (pending-SafeIf p a waiting h)
    Step-IsSafe p p' sent waiting h (commits e) =
        subst (SafeRound p) e (commit-SafeRound p waiting h)

    -- Over any history of a leader whose commit queue is not disposed at its start, whatever offsets
    -- replicas report, and however the in-sync set changes: the high watermark never falls; and
    -- every ack that was sent is of a message that asked for the leader's word alone, or that lies at
    -- or below the high watermark at the end.
    pub Trace-IsSafe :
        (p p' : Partition Q) (sent waiting : List Ack)
        → Holds p.queue waiting
        → Trace p sent p'
        → IsSafe p sent p'
    Trace-IsSafe p p' sent waiting h start = record {
      not_lower = omega arith;
      waiting = waiting;
      holds = h;
      covered = tt;
    }
    Trace-IsSafe p p' sent waiting h (then_ {sent = before} {later} {q} {r} t s) =
        let left = Trace-IsSafe p q before waiting h t in
        let right = Step-IsSafe q p' later left.waiting left.holds s in
        record {
          not_lower = omega (arith, left.not_lower, right.not_lower);
          waiting = right.waiting;
          holds = right.holds;
          covered =
              All-append (IsCovered p'.log.hw) before later
                (IsCovered-weaken q.log.hw p'.log.hw before right.not_lower left.covered)
                right.covered;
        }
