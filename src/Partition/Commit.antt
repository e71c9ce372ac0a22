-- ===== src/Partition/Commit.antt =====
-- What a round of the commit loop commits, acknowledges and leaves in the queue.
use liftbridge.Common.{
  ◌-◌, ℕ, ◌≤◌, ◌≡◌, ◌≢◌, refl, sym, ap, subst, ◌∙◌, ◌⊎◌, inl, inr, ℤ, ◌≤ℤ◌, ◌<ℤ◌, ltb_ℤ, lt→ltb_ℤ,
  lt→not_leb_ℤ, leb_ℤ, Bool, true, false, ◌&&◌, List, [], ◌∷◌, Option, none, some, arith, ltb,
  if◌then◌else◌, if_hit, if_miss, ◌++◌, length, keep, keep_hit, keep_miss, Bool-cases, All,
  All-append,
}
use liftbridge.Log.{Log, set_high_watermark}
use liftbridge.Log.Watermark.{set_high_watermark_lem}
use liftbridge.Partition.Queue.{
  Policy, leader, all, none_wanted, Ack, take_while, drop_while, QueueOps, QueueLaws,
}
use liftbridge.Partition.{
  Replica, Partition, Round, ran, stopped, min_loop, min_latest, send_committed, send_ack,
  is_all_policy, after_take, commit,
}

min_loop-le :
    (k m : ℤ) (rs : List Replica) → k ≡ min_loop m rs → (k ≤ℤ m) × All (λ r. k ≤ℤ r.offset) rs
unfolding min_loop
min_loop-le k m [] e = (rw e (omega arith), tt)
min_loop-le k m (r ∷ rs) e =
    let rest = min_loop-le k (if ltb_ℤ r.offset m then r.offset else m) rs e in
    (ground (arith, rest.0), (ground (arith, rest.0), rest.1))

-- No in-sync replica is behind the offset that the commit loop takes.
min_latest-le : (rs : List Replica) → rs ≢ [] → All (λ r. min_latest rs ≤ℤ r.offset) rs
unfolding min_latest
min_latest-le [] ne = absurd (ne refl)
min_latest-le (r ∷ rs) ne =
    let below = min_loop-le (min_loop r.offset rs) r.offset rs refl in (below.0, below.1)

-- Some replica has the offset.
abbrev pub HasOffset : ℤ → List Replica → Type 0
HasOffset m [] = ⊥
HasOffset m (r ∷ rs) = (r.offset ≡ m) ⊎ HasOffset m rs

-- The lowest offset of the replicas.
abbrev pub IsLowest : ℤ → List Replica → Type 0
IsLowest m rs = All (λ r. m ≤ℤ r.offset) rs × HasOffset m rs

min_loop-HasOffset : (k m : ℤ) (rs : List Replica) → k ≡ min_loop m rs → (k ≡ m) ⊎ HasOffset k rs
unfolding min_loop
min_loop-HasOffset k m [] e = inl e
min_loop-HasOffset k m (r ∷ rs) e =
    elim (min_loop-HasOffset k (if ltb_ℤ r.offset m then r.offset else m) rs e) [
      | inr later ↦ inr (inr later)
      | inl here ↦ elim (Bool-cases (ltb_ℤ r.offset m)) [
        | inl lower ↦ inr (inl (sym (rw lower at here)))
        | inr not_lower ↦ inl (rw not_lower at here)
      ]
    ]

min_latest-HasOffset : (rs : List Replica) → rs ≢ [] → HasOffset (min_latest rs) rs
unfolding min_latest
min_latest-HasOffset [] ne = absurd (ne refl)
min_latest-HasOffset (r ∷ rs) ne =
    elim (min_loop-HasOffset (min_loop r.offset rs) r.offset rs refl) [
      | inl here ↦ inl (sym here)
      | inr later ↦ inr later
    ]

-- Offsets never fall along the queue.
abbrev pub Climbs : List Ack → Type 0
Climbs [] = Unit {0}
Climbs (a ∷ acks) = All (λ b. a.offset ≤ℤ b.offset) acks × Climbs acks

abbrev pub is_ready : ℤ → Ack → Bool
is_ready m a = leb_ℤ a.offset m

abbrev pub is_pending : ℤ → Ack → Bool
is_pending m a = ltb_ℤ m a.offset

none_ready :
    (m k : ℤ) (acks : List Ack)
    → m <ℤ k
    → All (λ b. k ≤ℤ b.offset) acks
    → (keep (is_ready m) acks ≡ []) × (keep (is_pending m) acks ≡ acks)
none_ready m k [] lt h = (refl, refl)
none_ready m k (a ∷ acks) lt h =
    let rest = none_ready m k acks lt h.1 in
    let above : m <ℤ a.offset = omega (arith, h.0) in
    (
      keep_miss (is_ready m) a acks (lt→not_leb_ℤ a.offset m above) ∙ rest.0,
      keep_hit (is_pending m) a acks (lt→ltb_ℤ m a.offset above) ∙ ap (◌∷◌ a) rest.1,
    )

take_while-keep :
    (m : ℤ) (acks : List Ack)
    → Climbs acks
    → (take_while (is_ready m) acks ≡ keep (is_ready m) acks)
      × (drop_while (is_ready m) acks ≡ keep (is_pending m) acks)
take_while-keep m [] h = (refl, refl)
take_while-keep m (a ∷ acks) h = elim (Bool-cases (is_ready m a)) [
  | inl ready ↦
      let rest = take_while-keep m acks h.1 in
      let not_pending : is_pending m a ≡ false = ground (arith, ready) in
      (
        rw (take_while, ready) (ap (◌∷◌ a) rest.0) ∙ sym (keep_hit (is_ready m) a acks ready),
        rw (drop_while, ready) rest.1 ∙ sym (keep_miss (is_pending m) a acks not_pending),
      )
  | inr waits ↦
      let above : m <ℤ a.offset = ground (arith, waits) in
      let rest = none_ready m a.offset acks above h.0 in
      (
        rw (take_while, waits) (sym (keep_miss (is_ready m) a acks waits ∙ rest.0)),
        rw (drop_while, waits)
            (sym (keep_hit (is_pending m) a acks (lt→ltb_ℤ m a.offset above) ∙ ap (◌∷◌ a) rest.1)),
      )
]

abbrev asks_all : Policy → Bool
asks_all leader = false
asks_all all = true
asks_all none_wanted = false

-- An ack that a commit has to send.
abbrev pub is_answered : Ack → Bool
is_answered a = asks_all a.policy && a.has_inbox

all_policy-asks_all : (p : Policy) → is_all_policy p ≡ asks_all p
unfolding is_all_policy
all_policy-asks_all leader = refl
all_policy-asks_all all = refl
all_policy-asks_all none_wanted = refl

send_ack_inbox : (a : Ack) → a.has_inbox ≡ true → send_ack a ≡ a ∷ []
unfolding send_ack
send_ack_inbox a h = if_hit a.has_inbox _ _ h

send_ack_nowhere : (a : Ack) → a.has_inbox ≡ false → send_ack a ≡ []
unfolding send_ack
send_ack_nowhere a h = if_miss a.has_inbox _ _ h

send_committed-keep : (acks : List Ack) → send_committed acks ≡ keep is_answered acks
unfolding send_committed
send_committed-keep [] = refl
send_committed-keep (a ∷ acks) =
    let rest = send_committed-keep acks in
    let same = all_policy-asks_all a.policy in
    elim (Bool-cases (asks_all a.policy)) [
      | inr other ↦
          let miss : is_answered a ≡ false = cc other in
          if_miss (is_all_policy a.policy) _ _ (same ∙ other)
          ∙ rest
          ∙ sym (keep_miss is_answered a acks miss)
      | inl asked ↦
          if_hit (is_all_policy a.policy) _ _ (same ∙ asked) ∙ elim (Bool-cases a.has_inbox) [
            | inl inbox ↦
                let hit : is_answered a ≡ true = rw asked inbox in
                ap (λ xs. xs ++ send_committed acks) (send_ack_inbox a inbox)
                ∙ ap (λ xs. a ∷ xs) rest
                ∙ sym (keep_hit is_answered a acks hit)
            | inr no_inbox ↦
                let miss : is_answered a ≡ false = rw asked no_inbox in
                ap (λ xs. xs ++ send_committed acks) (send_ack_nowhere a no_inbox)
                ∙ rest
                ∙ sym (keep_miss is_answered a acks miss)
          ]
    ]

-- Acks that are sent stand among those committed.
module _ (P : Ack → Type 0) where
  pub send_ack-All : (a : Ack) → P a → All P (send_ack a)
  unfolding send_ack
  send_ack-All a h = elim (Bool-cases a.has_inbox) [
    | inl inbox ↦ simp inbox (h, tt)
    | inr no_inbox ↦ simp no_inbox tt
  ]

  pub send_committed-All : (acks : List Ack) → All P acks → All P (send_committed acks)
  unfolding send_committed
  send_committed-All [] h = tt
  send_committed-All (a ∷ acks) h = elim (Bool-cases (is_all_policy a.policy)) [
    | inl acked ↦ rw acked (
        All-append P (send_ack a) (send_committed acks) (send_ack-All a h.0)
          (send_committed-All acks h.1))
    | inr other ↦ rw other (send_committed-All acks h.1)
  ]

keep_ready-All :
    (m k : ℤ) (acks : List Ack) → m ≤ℤ k → All (λ a. a.offset ≤ℤ k) (keep (is_ready m) acks)
keep_ready-All m k [] le = tt
keep_ready-All m k (a ∷ acks) le = elim (Bool-cases (is_ready m a)) [
  | inl ready ↦
      let here : a.offset ≤ℤ m = ground (arith, ready) in
      subst (All (λ b. b.offset ≤ℤ k)) (sym (keep_hit (is_ready m) a acks ready))
        (omega (arith, here, le), keep_ready-All m k acks le)
  | inr waits ↦
      subst (All (λ b. b.offset ≤ℤ k)) (sym (keep_miss (is_ready m) a acks waits))
        (keep_ready-All m k acks le)
]

-- The partition after a round.
abbrev pub partition_after : {Q : Type 0} → Round Q → Partition Q
partition_after (ran p sent) = p
partition_after (stopped p) = p

module _ {Q : Type 0} (ops : QueueOps Q) (min_isr : ℕ) where
  after_take-log :
      (p : Partition Q) (o : Option (List Ack × Q))
      → (partition_after (after_take ops min_isr p o)).log ≡ p.log
  unfolding after_take
  after_take-log p none = refl
  after_take-log p (some (committed, q)) = refl

  -- A round of the commit loop on a leader, with a minimum of at least one in-sync replica, whether
  -- the queue is disposed or not: the high watermark does not fall; and either it stays or
  -- no in-sync replica is behind the new one.
  pub commit_safe :
      (p : Partition Q)
      → 1 ≤ min_isr
      → let hw' = (partition_after (commit ops min_isr p)).log.hw in
        (p.log.hw ≤ℤ hw') × ((hw' ≡ p.log.hw) ⊎ All (λ r. hw' ≤ℤ r.offset) p.isr)
  unfolding commit
  commit_safe p one = elim (Bool-cases (ltb (length p.isr) min_isr)) [
    | inl few ↦ rw few (omega arith, inl refl)
    | inr enough ↦
        let m = min_latest p.isr in
        let ne : p.isr ≢ [] =
          λ e. let small : length p.isr ≡ 0 = ap length e in ground (arith, enough, one, small) in
        let set = set_high_watermark_lem p.log m in
        rw (enough, after_take-log)
          (
            set.0,
            elim set.2 [
              | inl same ↦ inl (ap (λ (l : Log). l.hw) same)
              | inr (e, told) ↦ inr (rw e (min_latest-le p.isr ne))
            ],
          )
  ]

  -- A round with enough in-sync replicas, on a queue whose offsets do not fall: there is a lowest
  -- offset among those of the in-sync replicas, which some of them has and none is behind; the entries
  -- up to it leave the queue and those beyond it stay; of the entries that leave, those that
  -- asked for the policy ALL and have an inbox are acknowledged, in order, and no others; the high
  -- watermark is at least the lowest offset, and everything acknowledged lies at or below it.
  pub commit_lem :
      (Holds : Q → List Ack → Type 0) (p : Partition Q) (acks : List Ack)
      → QueueLaws ops Holds
      → Holds p.queue acks
      → Climbs acks
      → p.isr ≢ []
      → min_isr ≤ length p.isr
      → (m : ℤ) × IsLowest m p.isr
        × ((p' : Partition Q) × (sent : List Ack) × (commit ops min_isr p ≡ ran p' sent)
            × (sent ≡ keep is_answered (keep (is_ready m) acks))
            × Holds p'.queue (keep (is_pending m) acks)
            × (m ≤ℤ p'.log.hw)
            × All (λ a. a.offset ≤ℤ p'.log.hw) sent)
  unfolding commit after_take
  commit_lem Holds p acks laws holds climbs ne enough =
      let m = min_latest p.isr in
      let l = set_high_watermark p.log m in
      let not_few : ltb (length p.isr) min_isr ≡ false = ground (arith, enough) in
      let (q, takes, left) = laws.takes p.queue acks (is_ready m) holds in
      let parts = take_while-keep m acks climbs in
      let set = set_high_watermark_lem p.log m in
      let below : All (λ a. a.offset ≤ℤ l.hw) (send_committed (keep (is_ready m) acks)) =
        send_committed-All (λ a. a.offset ≤ℤ l.hw) (keep (is_ready m) acks)
          (keep_ready-All m l.hw acks set.1) in
      (
        m,
        (min_latest-le p.isr ne, min_latest-HasOffset p.isr ne),
        (
          record p { log = l; queue = q; commit_checks = p.commit_checks - 1 },
          send_committed (keep (is_ready m) acks),
          rw (not_few, takes, parts.0) refl,
          send_committed-keep (keep (is_ready m) acks),
          subst (Holds q) parts.1 left,
          set.1,
          below,
        ),
      )
