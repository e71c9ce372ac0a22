-- ===== src/Publish/Fill.antt =====
-- The batch of messages that the loop of a leader collects.
use liftbridge.Common.{
  ℕ, zero, suc, ◌-◌, ◌≤◌, ◌≡◌, refl, sym, ap, ◌∙◌, ◌⊎◌, inl, inr, Bool, true, false, List, [], ◌∷◌,
  ◌++◌, append_assoc, append-nil, arith, ◌==◌, if_hit, if_miss, length, length-append, take, drop,
  take-drop, length-take, Bool-cases,
}
use liftbridge.Publish.{NatsMsg, Arrivals, look, smaller, is_none_left, fill, collect}

module _ (waits : Bool) (arrivals : Arrivals) where
  -- Messages that came while the batch was collected.
  pub data CameIn : List NatsMsg → Type 0 where
    nothing : CameIn []
    slept_in : (k : ℕ) → CameIn (arrivals.slept k)
    came_in : (k : ℕ) → CameIn (arrivals.came k)
    then_ : {xs ys : List NatsMsg} → CameIn xs → CameIn ys → CameIn (xs ++ ys)

  -- Taken are at most so many messages of the channel, from its front; none is lost; and either it is
  -- as many as wanted, or nothing was left.
  pub record IsFilled (remaining : ℕ) (chan taken left : List NatsMsg) : Type 0 where
    pub later : List NatsMsg
    pub came_later : CameIn later
    pub in_order : taken ++ left ≡ chan ++ later
    pub bounded : length taken ≤ remaining
    pub stops : (length taken ≡ remaining) ⊎ (left ≡ [])

  look_lem :
      (k : ℕ) (chan : List NatsMsg)
      → (x : List NatsMsg) × CameIn x × (look waits arrivals k chan ≡ chan ++ x)
  unfolding look
  look_lem k [] = elim (Bool-cases waits) [
    | inl sleeps ↦ (arrivals.slept k, slept_in k, if_hit waits _ _ sleeps)
    | inr runs ↦ ([], nothing, if_miss waits _ _ runs)
  ]
  look_lem k (m ∷ ms) = ([], nothing, sym (append-nil (m ∷ ms)))

none_left : (ms : List NatsMsg) → is_none_left ms ≡ true → ms ≡ []
unfolding is_none_left
none_left [] h = refl
none_left (m ∷ ms) h = cc

some_left : (ms : List NatsMsg) → is_none_left ms ≡ false → 1 ≤ length ms
unfolding is_none_left
some_left [] h = cc
some_left (m ∷ ms) h = omega arith

smaller_lem : (a b : ℕ) → (smaller a b ≤ a) × (smaller a b ≤ b) × (1 ≤ a → 1 ≤ b → 1 ≤ smaller a b)
unfolding smaller
smaller_lem a b = ground arith

module _ (waits : Bool) (arrivals : Arrivals) where
  take_more :
      (k remaining n : ℕ) (chan x seen taken left : List NatsMsg)
      → CameIn waits arrivals x
      → seen ≡ chan ++ x
      → n ≤ length seen
      → n ≤ remaining
      → IsFilled waits arrivals (remaining - n) (drop n seen ++ arrivals.came k) taken left
      → IsFilled waits arrivals remaining chan (take n seen ++ taken) left
  take_more k remaining n chan x seen taken left c same long few f =
      let size : length (take n seen) ≡ n = length-take n seen long in
      record {
        later = x ++ (arrivals.came k ++ f.later);
        came_later = then_ c (then_ (came_in k) f.came_later);
        in_order =
            append_assoc (take n seen) taken left
            ∙ (ap (λ ms. take n seen ++ ms)
                  (f.in_order ∙ append_assoc (drop n seen) (arrivals.came k) f.later)
                ∙ (sym (append_assoc (take n seen) (drop n seen) (arrivals.came k ++ f.later))
                    ∙ (ap (λ ms. ms ++ (arrivals.came k ++ f.later)) (take-drop n seen ∙ same)
                        ∙ append_assoc chan x (arrivals.came k ++ f.later))));
        bounded = omega (arith, length-append (take n seen) taken, size, f.bounded);
        stops = elim f.stops [
          | inl full ↦ inl (omega (arith, length-append (take n seen) taken, size, full))
          | inr gone ↦ inr gone
        ];
      }

  nothing_taken :
      (remaining : ℕ) (chan x left : List NatsMsg)
      → CameIn waits arrivals x
      → left ≡ chan ++ x
      → (0 ≡ remaining) ⊎ (left ≡ [])
      → IsFilled waits arrivals remaining chan [] left
  nothing_taken remaining chan x left c same why = record {
    later = x;
    came_later = c;
    in_order = same;
    bounded = omega arith;
    stops = why;
  }

  fill-IsFilled :
      (k remaining : ℕ) (chan : List NatsMsg)
      → remaining ≤ k
      → let r = fill waits arrivals k remaining chan in
        IsFilled waits arrivals remaining chan r.0 r.1
  unfolding fill
  fill-IsFilled zero remaining chan le =
      nothing_taken remaining chan [] chan nothing (sym (append-nil chan)) (inl (omega (arith, le)))
  fill-IsFilled (suc k) remaining chan le =
      let (x, c, same) = look_lem waits arrivals k chan in
      elim (Bool-cases (remaining == 0)) [
        | inl done ↦ rw done (
            nothing_taken remaining chan [] chan nothing (sym (append-nil chan))
              (inl (ground (arith, done))))
        | inr wanted ↦ elim (Bool-cases (is_none_left (look waits arrivals k chan))) [
          | inl empty ↦
              let gone = none_left (look waits arrivals k chan) empty in
              rw (wanted, empty)
                (nothing_taken remaining chan x (look waits arrivals k chan) c same (inr gone))
          | inr some_ ↦
              let seen = look waits arrivals k chan in
              let n = smaller_lem (length seen) remaining in
              let one = n.2 (some_left seen some_) (ground (arith, wanted)) in
              rw (wanted, some_)
                (take_more k remaining (smaller (length seen) remaining) chan x seen _ _ c same n.0
                  n.1
                  (fill-IsFilled k (remaining - smaller (length seen) remaining) _
                    (omega (arith, le, one))))
        ]
      ]

-- A batch starts with the message that was taken and goes on with what is in the channel, in its
-- order; nothing is lost; it has at most as many messages as are wanted, or the one; and the loop ends
-- since the batch is full or the channel is empty, never for want of rounds.
pub collect-IsFilled :
    (waits : Bool) (arrivals : Arrivals) (batch_size : ℕ) (m : NatsMsg) (chan : List NatsMsg)
    → let r = collect waits arrivals batch_size m chan in
      (taken : List NatsMsg) × (r.0 ≡ m ∷ taken)
      × IsFilled waits arrivals (batch_size - 1) chan taken r.1
unfolding collect
collect-IsFilled waits arrivals batch_size m chan = (
  (fill waits arrivals (batch_size - 1) (batch_size - 1) chan).0,
  refl,
  fill-IsFilled waits arrivals (batch_size - 1) (batch_size - 1) chan (omega arith),
)
