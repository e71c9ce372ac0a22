-- ===== src/Partition/Lifecycle/Recovery.antt =====
-- A partition at the end of the recovery of the server.
use liftbridge.Common.{
  ℕ, ◌≡◌, refl, ap, subst, sym, ◌∙◌, ◌⊎◌, inl, inr, ℤ, Bool, true, false, not, Option, none, some,
  if_hit, if_miss, Bool-cases,
}
use liftbridge.Epochs.{Disk}
use liftbridge.Partition.Queue.{QueueOps}
use liftbridge.Partition.{Partition}
use liftbridge.Partition.Lifecycle.{
  Answers, Failure, is_error, try, start_leading_or_following, finish_recovery, start_recovered,
}
use liftbridge.Partition.Lifecycle.Ends.{Ends, HasRole, Keeps, Sound, try-Ends}
use liftbridge.Partition.Lifecycle.Roles.{Plays, start-Ends}

module _ {Q : Type 0} where
  Ends-success :
      (P E : Partition Q → Type 0) (r : Partition Q × Option Failure)
      → Ends P E r
      → r.1 ≡ none
      → P r.0
  Ends-success P E (p, none) h k = h
  Ends-success P E (p, some e) h k = cc

module _ {Q : Type 0} (ops : QueueOps Q) (min_isr : ℕ) where
  -- What the end of the recovery makes of a partition: it is left alone if it is not recovered or
  -- paused, and otherwise it is no longer recovering and plays the role that fits its leader.
  abbrev pub Resumes : Partition Q → Partition Q → Type 0
  Resumes p p' =
      ((p.recovered ≡ false) × (p' ≡ p))
      ⊎ (((p.paused ≡ true) × (p' ≡ p))
          ⊎ ((p.recovered ≡ true)
              × (p.paused ≡ false)
              × (p'.recovered ≡ false)
              × Plays ops min_isr p p'))

  module _ (disk : Disk) (ok : Answers) (answer : ℕ → Option ℤ) (p : Partition Q) where
    started : Partition Q × Option Failure
    started =
        try (start_leading_or_following ops min_isr disk ok answer p)
          (finish_recovery ops min_isr disk ok)

    abbrev Result : Type 0
    Result = Partition Q × (Bool × Option Failure)

    runs :
        p.recovered ≡ true
        → p.paused ≡ false
        → start_recovered ops min_isr disk ok answer p
          ≡ (started.0, (not (is_error started.1), started.1))
    unfolding start_recovered started
    runs recovering running =
        if_miss (not p.recovered) _ _ (ap not recovering) ∙ if_miss p.paused _ _ running

    started-Plays :
        HasRole p → Ends (λ p'. (p'.recovered ≡ false) × Plays ops min_isr p p') (Sound p) started
    unfolding started finish_recovery
    started-Plays h =
        try-Ends (λ p'. Plays ops min_isr p p' × Keeps p p')
          (λ p'. (p'.recovered ≡ false) × Plays ops min_isr p p') (Sound p)
          (start_leading_or_following ops min_isr disk ok answer p) _
          (start-Ends ops min_isr disk ok answer p h) (λ p1 k. (refl, k.0))

    pub started-Resumes :
        HasRole p
        → (start_recovered ops min_isr disk ok answer p).1.1 ≡ none
        → Resumes p (start_recovered ops min_isr disk ok answer p).0
    unfolding start_recovered
    started-Resumes h k = elim (Bool-cases p.recovered) [
      | inr fresh ↦
          subst (λ (r : Result). Resumes p r.0) (sym (if_hit (not p.recovered) _ _ (ap not fresh)))
            (inl (fresh, refl))
      | inl recovering ↦ elim (Bool-cases p.paused) [
        | inl paused ↦
            subst (λ (r : Result). Resumes p r.0)
              (sym (if_miss (not p.recovered) _ _ (ap not recovering) ∙ if_hit p.paused _ _ paused))
              (inr (inl (paused, refl)))
        | inr running ↦
            let e = runs recovering running in
            let plays =
              Ends-success (λ p'. (p'.recovered ≡ false) × Plays ops min_isr p p') (Sound p) started
                (started-Plays h) (sym (ap (λ (r : Result). r.1.1) e) ∙ k) in
            subst (λ (r : Result). Resumes p r.0) (sym e)
              (inr (inr (recovering, running, plays.0, plays.1)))
      ]
    ]
