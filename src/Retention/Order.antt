-- ===== src/Retention/Order.antt =====
-- What retention keeps: a run of the newest segments, with all others deleted.
use mathlib.Core.List.{Perm, reverse, reverse-reverse, reverse-cons, reverse_perm}
use mathlib.Core.List.Perm
use liftbridge.Common.{
  false, ℕ, ◌+◌, ◌≡◌, refl, sym, ap, ◌∙◌, ◌⊎◌, inl, inr, ℤ, pos, ltb_ℤ, Bool, List, [], ◌∷◌, ◌++◌,
  append-nil, append_assoc, length, leb, Bool-cases,
}
use liftbridge.Segment.{Segment, message_count}
use liftbridge.Retention.{
  Limits, Outcome, kept, failed, panicked, and_then, delete_all, limit_loop, apply_messages_limit,
  bytes_from, apply_bytes_limit, apply_age_limit, clean, limit_age, limit_messages, limit_bytes,
  no_retention_limits,
}

-- The segments `stay` are the newest ones, and `gone` are all older ones in some order.
pub record Keeps (segments stay gone : List Segment) : Type 0 where
  pub older : List Segment
  pub split : segments ≡ older ++ stay
  pub deleted : Perm gone older

-- An outcome that keeps the newest of these segments, where it is no failure.
abbrev pub KeepsNewest : List Segment → List Segment → Outcome → Type 0
KeepsNewest segments before (kept stay gone) =
    (since : List Segment) × (gone ≡ before ++ since) × Keeps segments stay since
KeepsNewest segments before (failed gone) = Unit {0}
KeepsNewest segments before (panicked gone) = Unit {0}

-- Deleting a list of segments deletes them all, or fails at one that cannot be deleted.
pub delete_all_cases :
    (deletes : Segment → Bool) (ss stay gone : List Segment)
    → (delete_all deletes ss stay gone ≡ kept stay (gone ++ ss))
      ⊎ ((g : List Segment) × (t : Segment) × (delete_all deletes ss stay gone ≡ failed g)
          × (deletes t ≡ false))
unfolding delete_all
delete_all_cases deletes [] stay gone = inl (rw append-nil)
delete_all_cases deletes (s ∷ ss) stay gone = elim (Bool-cases (deletes s)) [
  | inl fine ↦ rw fine (rw append_assoc at (delete_all_cases deletes ss stay (gone ++ s ∷ [])))
  | inr stuck ↦ inr (gone, s, rw stuck, stuck)
]

module _ (deletes : Segment → Bool) where
  delete_all-KeepsNewest :
      (segments ss stay gone : List Segment)
      → segments ≡ reverse ss ++ stay
      → KeepsNewest segments gone (delete_all deletes ss stay gone)
  delete_all-KeepsNewest segments ss stay gone e = elim (delete_all_cases deletes ss stay gone) [
    | inl fine ↦
        rw fine (
          ss,
          refl,
          record { older = reverse ss; split = e; deleted = Perm.symm (reverse_perm ss) },
        )
    | inr (g, t, stuck, refused) ↦ rw stuck tt
  ]

  nothing_deleted : (segments gone : List Segment) → KeepsNewest segments gone (kept segments gone)
  nothing_deleted segments gone =
      ([], sym (append-nil gone), record { older = []; split = refl; deleted = Perm.nil })

  KeepsNewest-trans :
      (segments before stay gone : List Segment) (o : Outcome)
      → KeepsNewest segments before (kept stay gone)
      → KeepsNewest stay gone o
      → KeepsNewest segments before o
  KeepsNewest-trans segments before stay gone (kept stay' gone') (since, e, k) (since', e', k') = (
    since ++ since',
    e' ∙ (ap (λ g. g ++ since') e ∙ append_assoc before since since'),
    record {
      older = k.older ++ k'.older;
      split = k.split ∙ (ap (◌++◌ k.older) k'.split ∙ sym (append_assoc k.older k'.older stay'));
      deleted = Perm.append k.deleted k'.deleted;
    },
  )
  KeepsNewest-trans segments before stay gone (failed g) h k = tt
  KeepsNewest-trans segments before stay gone (panicked g) h k = tt

  KeepsNewest-and_then :
      (segments : List Segment) (o : Outcome) (f : List Segment → List Segment → Outcome)
      → KeepsNewest segments [] o
      → ((stay gone : List Segment) → KeepsNewest stay gone (f stay gone))
      → KeepsNewest segments [] (and_then o f)
  KeepsNewest-and_then segments (kept stay gone) f h k =
      KeepsNewest-trans segments [] stay gone (f stay gone) h (k stay gone)
  KeepsNewest-and_then segments (failed g) f h k = tt
  KeepsNewest-and_then segments (panicked g) f h k = tt

  limit_loop-KeepsNewest :
      (measure : Segment → ℕ) (limit : ℤ) (rs : List Segment) (total : ℕ)
      (segments stay gone : List Segment)
      → segments ≡ reverse rs ++ stay
      → KeepsNewest segments gone (limit_loop deletes measure limit rs total stay gone)
  unfolding limit_loop
  limit_loop-KeepsNewest measure limit [] total segments stay gone e =
      rw e (nothing_deleted stay gone)
  limit_loop-KeepsNewest measure limit (s ∷ older) total segments stay gone e =
      elim (Bool-cases (ltb_ℤ limit (pos (total + measure s)))) [
        | inl over ↦ rw over (delete_all-KeepsNewest segments (s ∷ older) stay gone e)
        | inr fits ↦ rw fits (
            limit_loop-KeepsNewest measure limit older (total + measure s) segments (s ∷ stay) gone
              (e
                ∙ (ap (λ xs. xs ++ stay) (reverse-cons s older)
                    ∙ append_assoc (reverse older) (s ∷ []) stay)))
      ]

  apply_messages_limit-KeepsNewest :
      (limit : ℤ) (segments gone : List Segment)
      → KeepsNewest segments gone (apply_messages_limit deletes limit segments gone)
  unfolding apply_messages_limit
  apply_messages_limit-KeepsNewest limit segments gone =
      elim (Bool-cases (leb (length segments) 1)) [
        | inl small ↦ rw small (nothing_deleted segments gone)
        | inr large ↦ rw large (
            limit_loop-KeepsNewest message_count limit (reverse segments) 0 segments [] gone
              (sym (append-nil _ ∙ reverse-reverse segments)))
      ]

  bytes_from-KeepsNewest :
      (limit : ℤ) (rs segments gone : List Segment)
      → segments ≡ reverse rs
      → KeepsNewest segments gone (bytes_from deletes limit rs gone)
  unfolding bytes_from
  bytes_from-KeepsNewest limit [] segments gone e = tt
  bytes_from-KeepsNewest limit (last ∷ older) segments gone e =
      limit_loop-KeepsNewest _ limit older last.position segments (last ∷ []) gone
        (e ∙ reverse-cons last older)

  apply_age_limit-KeepsNewest :
      (ttl : ℤ) (segments gone : List Segment)
      → KeepsNewest segments gone (apply_age_limit deletes ttl segments gone)
  unfolding apply_age_limit
  apply_age_limit-KeepsNewest ttl [] gone = nothing_deleted [] gone
  apply_age_limit-KeepsNewest ttl (s ∷ []) gone = nothing_deleted (s ∷ []) gone
  apply_age_limit-KeepsNewest ttl (s ∷ t ∷ ss) gone =
      let rest =
        KeepsNewest-trans (s ∷ t ∷ ss) gone (t ∷ ss) (gone ++ s ∷ [])
          (apply_age_limit deletes ttl (t ∷ ss) (gone ++ s ∷ []))
          (s ∷ [], refl, record { older = s ∷ []; split = refl; deleted = Perm.refl _ })
          (apply_age_limit-KeepsNewest ttl (t ∷ ss) (gone ++ s ∷ [])) in
      elim (Bool-cases (ltb_ℤ s.last_write_time ttl)) [
        | inr recent ↦ rw recent (nothing_deleted (s ∷ t ∷ ss) gone)
        | inl old ↦
            rw old
              (elim (Bool-cases (deletes s)) [ inl fine ↦ rw fine rest | inr stuck ↦ rw stuck tt ])
      ]

  limit_age-KeepsNewest :
      (limits : Limits) (stay gone : List Segment)
      → KeepsNewest stay gone (limit_age deletes limits stay gone)
  unfolding limit_age
  limit_age-KeepsNewest limits stay gone = elim (Bool-cases (ltb_ℤ (pos 0) limits.age)) [
    | inl set ↦ rw set (apply_age_limit-KeepsNewest limits.ttl stay gone)
    | inr unset ↦ rw unset (nothing_deleted stay gone)
  ]

  limit_messages-KeepsNewest :
      (limits : Limits) (stay gone : List Segment)
      → KeepsNewest stay gone (limit_messages deletes limits stay gone)
  unfolding limit_messages
  limit_messages-KeepsNewest limits stay gone = elim (Bool-cases (ltb_ℤ (pos 0) limits.messages)) [
    | inl set ↦ rw set (apply_messages_limit-KeepsNewest limits.messages stay gone)
    | inr unset ↦ rw unset (nothing_deleted stay gone)
  ]

  limit_bytes-KeepsNewest :
      (limits : Limits) (stay gone : List Segment)
      → KeepsNewest stay gone (limit_bytes deletes limits stay gone)
  unfolding limit_bytes apply_bytes_limit
  limit_bytes-KeepsNewest limits stay gone = elim (Bool-cases (ltb_ℤ (pos 0) limits.bytes)) [
    | inl set ↦
        rw set (
          bytes_from-KeepsNewest limits.bytes (reverse stay) stay gone (sym (reverse-reverse stay)))
    | inr unset ↦ rw unset (nothing_deleted stay gone)
  ]

  -- When retention succeeds, the segments that stay are the newest ones in their order, and every
  -- older one was deleted once and nothing else.
  pub clean-KeepsNewest :
      (limits : Limits) (segments : List Segment)
      → KeepsNewest segments [] (clean deletes limits segments)
  unfolding clean no_retention_limits
  clean-KeepsNewest limits [] = nothing_deleted [] []
  clean-KeepsNewest limits (s ∷ ss) = elim (Bool-cases (no_retention_limits limits)) [
    | inl unset ↦ rw unset (nothing_deleted (s ∷ ss) [])
    | inr set ↦ rw set (
        KeepsNewest-and_then (s ∷ ss)
          (and_then (limit_age deletes limits (s ∷ ss) []) (limit_messages deletes limits))
          (limit_bytes deletes limits)
          (KeepsNewest-and_then (s ∷ ss) (limit_age deletes limits (s ∷ ss) [])
            (limit_messages deletes limits) (limit_age-KeepsNewest limits (s ∷ ss) [])
            (limit_messages-KeepsNewest limits))
          (limit_bytes-KeepsNewest limits))
  ]
