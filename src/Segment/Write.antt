-- ===== src/Segment/Write.antt =====
-- What stays true of a segment that is written to, waited for and opened again.
use liftbridge.Common.{
  ℕ, ◌≡◌, refl, sym, ap, ◌∙◌, subst, ◌⊎◌, inl, inr, ℤ, pos, minus_one, ◌+ℤ◌, ◌≤ℤ◌, ◌<ℤ◌, eqb_ℤ,
  +ℤ_parts, true, false, List, [], ◌∷◌, ◌++◌, arith, if◌then◌else◌, last_of, last_of-append, All,
  All-append,
}
use liftbridge.Segment.{
  Record, Segment, Outcome, done, failed, panicked, new_segment, next_offset, setup_index,
  setup_bounds, written, write_message_set, wait_for_leo, contains,
}

-- Offsets rise from a bound on.
abbrev pub Rising : ℤ → List Record → Type 0
Rising lo [] = Unit {0}
Rising lo (r ∷ rs) = (lo ≤ℤ r.offset) × Rising (r.offset +ℤ pos 1) rs

-- The offset after the last record.
abbrev pub end_of : ℤ → List Record → ℤ
end_of lo [] = lo
end_of lo (r ∷ rs) = end_of (r.offset +ℤ pos 1) rs

-- The bounds that a segment keeps are those of its records.
abbrev pub Bounds : Segment → List Record → Type 0
Bounds s [] =
    (s.first_offset ≡ minus_one)
    × (s.last_offset ≡ minus_one)
    × (s.first_write_time ≡ pos 0)
    × (s.last_write_time ≡ pos 0)
Bounds s (r ∷ rs) =
    (s.first_offset ≡ r.offset)
    × (s.last_offset ≡ (last_of r rs).offset)
    × (s.first_write_time ≡ r.timestamp)
    × (s.last_write_time ≡ (last_of r rs).timestamp)

-- A segment between two calls: timestamps are after the epoch, offsets rise from the base offset.
pub record IsValid (s : Segment) : Type 0 where
  pub base : pos 0 ≤ℤ s.base_offset
  pub rising : Rising s.base_offset s.records
  pub bounds : Bounds s s.records
  pub stamped : All (λ r. pos 0 <ℤ r.timestamp) s.records
  pub started : (s.records ≡ []) ⊎ (pos 0 <ℤ s.first_write_time)

pub new_segment-IsValid : (base : ℤ) (max : ℕ) → pos 0 ≤ℤ base → IsValid (new_segment base max)
unfolding new_segment
new_segment-IsValid base max h = record {
  base = h;
  rising = tt;
  bounds = (refl, refl, refl, refl);
  stamped = tt;
  started = inl refl;
}

end_of-last :
    (lo : ℤ) (r : Record) (rs : List Record) → end_of lo (r ∷ rs) ≡ (last_of r rs).offset +ℤ pos 1
end_of-last lo r [] = refl
end_of-last lo r (s ∷ rs) = end_of-last (r.offset +ℤ pos 1) s rs

pub end_of-le : (lo : ℤ) (rs : List Record) → Rising lo rs → lo ≤ℤ end_of lo rs
end_of-le lo [] h = omega arith
end_of-le lo (r ∷ rs) h =
    omega (arith, h.0, end_of-le (r.offset +ℤ pos 1) rs h.1, +ℤ_parts r.offset (pos 1))

pub Rising-append :
    (lo : ℤ) (xs ys : List Record) → Rising lo xs → Rising (end_of lo xs) ys → Rising lo (xs ++ ys)
Rising-append lo [] ys h k = k
Rising-append lo (x ∷ xs) ys h k = (h.0, Rising-append (x.offset +ℤ pos 1) xs ys h.1 k)

last_nonneg :
    (lo : ℤ) (r : Record) (rs : List Record)
    → pos 0 ≤ℤ lo
    → Rising lo (r ∷ rs)
    → pos 0 ≤ℤ (last_of r rs).offset
last_nonneg lo r [] p h = omega (arith, h.0)
last_nonneg lo r (s ∷ rs) p h =
    last_nonneg (r.offset +ℤ pos 1) s rs (omega (arith, h.0, +ℤ_parts r.offset (pos 1))) h.1

next_offset_from :
    (s : Segment) (rs : List Record)
    → pos 0 ≤ℤ s.base_offset
    → Rising s.base_offset rs
    → Bounds s rs
    → next_offset s ≡ end_of s.base_offset rs
unfolding next_offset
next_offset_from s [] p h b = rw b.1
next_offset_from s (r ∷ rs) p h b =
    let later : eqb_ℤ s.last_offset minus_one ≡ false =
      rw b.1 (ground (arith, last_nonneg s.base_offset r rs p h)) in
    rw later (rw b.1 (sym (end_of-last s.base_offset r rs)))

-- The next offset of a segment is one past its last record, or its base offset.
pub next_offset-end_of : (s : Segment) → IsValid s → next_offset s ≡ end_of s.base_offset s.records
next_offset-end_of s v = next_offset_from s s.records v.base v.rising v.bounds

pub written_same :
    (s : Segment) (n : ℕ) (r : Record) (rs : List Record)
    → ((written s n r rs).records ≡ s.records ++ r ∷ rs)
      × ((written s n r rs).base_offset ≡ s.base_offset)
unfolding written
written_same s n r rs = (refl, refl)

-- A write that succeeds.
abbrev pub Writes : Outcome → (Segment → Type 0) → Type 0
Writes (done s) P = P s
Writes (failed s e) P = ⊥
Writes panicked P = ⊥

written-Bounds :
    (s t : Segment) (r : Record) (rs old : List Record)
    → Bounds s old
    → (old ≡ []) ⊎ (pos 0 <ℤ s.first_write_time)
    → t.first_offset ≡ (if eqb_ℤ s.first_write_time (pos 0) then r.offset else s.first_offset)
    → t.first_write_time
      ≡ (if eqb_ℤ s.first_write_time (pos 0) then r.timestamp else s.first_write_time)
    → t.last_offset ≡ (last_of r rs).offset
    → t.last_write_time ≡ (last_of r rs).timestamp
    → Bounds t (old ++ r ∷ rs)
written-Bounds s t r rs [] b st p q l w = (rw b.2 at p, l, rw b.2 at q, w)
written-Bounds s t r rs (o ∷ old) b (inl e) p q l w = cc
written-Bounds s t r rs (o ∷ old) b (inr lt) p q l w =
    let set : eqb_ℤ s.first_write_time (pos 0) ≡ false = ground arith in
    (
      (rw set at p) ∙ b.0,
      l ∙ ap (λ (x : Record). x.offset) (sym (last_of-append o old r rs)),
      (rw set at q) ∙ b.2,
      w ∙ ap (λ (x : Record). x.timestamp) (sym (last_of-append o old r rs)),
    )

started_after :
    (s : Segment) (r : Record) (old : List Record)
    → Bounds s old
    → (old ≡ []) ⊎ (pos 0 <ℤ s.first_write_time)
    → pos 0 <ℤ r.timestamp
    → pos 0 <ℤ (if eqb_ℤ s.first_write_time (pos 0) then r.timestamp else s.first_write_time)
started_after s r [] b st lt = rw b.2 lt
started_after s r (o ∷ old) b (inl e) lt = cc
started_after s r (o ∷ old) b (inr h) lt = ground arith

pub end_of-append : (lo : ℤ) (xs ys : List Record) → end_of lo (xs ++ ys) ≡ end_of (end_of lo xs) ys
end_of-append lo [] ys = refl
end_of-append lo (x ∷ xs) ys = end_of-append (x.offset +ℤ pos 1) xs ys

pub written-IsValid :
    (s : Segment) (n : ℕ) (r : Record) (rs : List Record)
    → IsValid s
    → Rising (next_offset s) (r ∷ rs)
    → All (λ x. pos 0 <ℤ x.timestamp) (r ∷ rs)
    → IsValid (written s n r rs)
unfolding written
written-IsValid s n r rs v h later = record {
  base = v.base;
  rising =
      Rising-append s.base_offset s.records (r ∷ rs) v.rising
        (subst (λ lo. Rising lo (r ∷ rs)) (next_offset-end_of s v) h);
  bounds =
      written-Bounds s (written s n r rs) r rs s.records v.bounds v.started refl refl refl refl;
  stamped = All-append _ s.records (r ∷ rs) v.stamped later;
  started = inr (started_after s r s.records v.bounds v.started later.0);
}

pub next_offset-written :
    (s : Segment) (n : ℕ) (r : Record) (rs : List Record)
    → IsValid s
    → IsValid (written s n r rs)
    → next_offset (written s n r rs) ≡ end_of (next_offset s) (r ∷ rs)
unfolding written
next_offset-written s n r rs v w =
    next_offset-end_of (written s n r rs) w
    ∙ (end_of-append s.base_offset s.records (r ∷ rs)
        ∙ ap (λ lo. end_of lo (r ∷ rs)) (sym (next_offset-end_of s v)))

-- Writing records whose offsets rise from the next offset, at times after the epoch, succeeds on an
-- open segment and leaves a valid segment: its next offset is one past the last new record, its
-- records are the old ones and then the new ones, and nobody is left waiting.
pub write_message_set-IsValid :
    (s : Segment) (n : ℕ) (r : Record) (rs : List Record)
    → IsValid s
    → s.closed ≡ false
    → Rising (next_offset s) (r ∷ rs)
    → All (λ x. pos 0 <ℤ x.timestamp) (r ∷ rs)
    → Writes (write_message_set s n (r ∷ rs) true) (λ t.
      IsValid t
      × (t.records ≡ s.records ++ r ∷ rs)
      × (next_offset t ≡ end_of (next_offset s) (r ∷ rs))
      × (t.waiters ≡ []))
unfolding write_message_set
write_message_set-IsValid s n r rs v open_ h later =
    let w = written-IsValid s n r rs v h later in
    simp open_
      (w, (unfold written in refl), next_offset-written s n r rs v w, (unfold written in refl))

-- Opening a new segment on the index of a valid one gives it the same bounds.
pub setup_index-Bounds :
    (s t : Segment)
    → IsValid s
    → t.records ≡ s.records
    → t.first_offset ≡ minus_one
    → t.last_offset ≡ minus_one
    → t.first_write_time ≡ pos 0
    → t.last_write_time ≡ pos 0
    → Bounds (setup_index t) s.records
unfolding setup_index
setup_index-Bounds s t v e a b c d =
    subst (λ rs. Bounds (setup_bounds t t.records) rs) e (go t.records)
  where
    go : (rs : List Record) → Bounds (setup_bounds t rs) rs
    go [] = (a, b, c, d)
    go (r ∷ rs) = (refl, refl, refl, refl)

-- A waiter whose channel is left open waits at the last offset, and is registered: so the next write
-- closes its channel.
pub wait_for_leo_lem :
    (s : Segment) (waiter : ℕ) (leo : ℤ)
    → (wait_for_leo s waiter leo).1 ≡ false
    → (s.last_offset ≡ leo) × (contains waiter (wait_for_leo s waiter leo).0.waiters ≡ true)
unfolding wait_for_leo contains
wait_for_leo_lem s waiter leo h = ground arith

-- Opening a valid segment again changes nothing that is kept in its index.
pub reopen-IsValid : (s : Segment) → IsValid s → IsValid (setup_index (record s { closed = false }))
unfolding setup_index
reopen-IsValid s v = go s.records refl
  where
    u : Segment
    u = record s { closed = false }

    go : (rs : List Record) → s.records ≡ rs → IsValid (setup_bounds u rs)
    go [] e = record {
      base = v.base;
      rising = v.rising;
      bounds = rw e (rw e at v.bounds);
      stamped = v.stamped;
      started = inl e;
    }
    go (r ∷ rs) e = record {
      base = v.base;
      rising = v.rising;
      bounds = subst (λ xs. Bounds (setup_bounds u (r ∷ rs)) xs) (sym e) (refl, refl, refl, refl);
      stamped = v.stamped;
      started = inr (rw e at v.stamped).0;
    }

pub reopen_same :
    (s : Segment)
    → let t = setup_index (record s { closed = false }) in
      (t.records ≡ s.records) × (t.base_offset ≡ s.base_offset) × (t.closed ≡ false)
unfolding setup_index
reopen_same s = go s.records
  where
    u : Segment
    u = record s { closed = false }

    go :
        (rs : List Record)
        → let t = setup_bounds u rs in
          (t.records ≡ s.records) × (t.base_offset ≡ s.base_offset) × (t.closed ≡ false)
    go [] = (refl, refl, refl)
    go (r ∷ rs) = (refl, refl, refl)
