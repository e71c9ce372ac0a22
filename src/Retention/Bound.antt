-- ===== src/Retention/Bound.antt =====
-- How much retention by bytes and by messages keeps.
use mathlib.Core.List.{reverse, reverse-reverse, reverse-cons}
use liftbridge.Common.{
  false, ℕ, ◌+◌, ◌≡◌, refl, sym, ap, ◌∙◌, append_assoc, ◌⊎◌, inl, inr, ℤ, pos, ltb_ℤ, ◌<ℤ◌, ◌≤ℤ◌,
  Bool, List, [], ◌∷◌, ◌++◌, append-nil, arith, Bool-cases,
}
use liftbridge.Segment.{Segment}
use liftbridge.Retention.{
  Outcome, kept, failed, panicked, delete_all, limit_loop, bytes_from, apply_bytes_limit,
}
use liftbridge.Retention.Order.{delete_all_cases}

-- The sum of a measure over segments.
abbrev pub total_by : (Segment → ℕ) → List Segment → ℕ
total_by measure [] = 0
total_by measure (s ∷ ss) = measure s + total_by measure ss

-- The next older segment, if there is one, would not fit.
abbrev pub Overflows : (Segment → ℕ) → ℤ → ℕ → List Segment → Type 0
Overflows measure limit total [] = Unit {0}
Overflows measure limit total (s ∷ older) = limit <ℤ pos (total + measure s)

-- If the limit does not fail, `stay` is within it unless it is what may never be deleted. The segments
-- are `stay` behind those that were deleted, newest first, and the newest of these would not have
-- fitted. It fails only if some segment cannot be deleted.
module _ (deletes : Segment → Bool) (measure : Segment → ℕ) (limit : ℤ) where
  abbrev pub Tight : List Segment → List Segment → List Segment → Outcome → Type 0
  Tight always segments before (kept stay gone) =
      ((stay ≡ always) ⊎ (pos (total_by measure stay) ≤ℤ limit))
      × ((since : List Segment) × (gone ≡ before ++ since)
          × (segments ≡ reverse since ++ stay)
          × Overflows measure limit (total_by measure stay) since)
  Tight always segments before (failed gone) = (s : Segment) × (deletes s ≡ false)
  Tight always segments before (panicked gone) = ⊥

  delete_all-Tight :
      (always segments : List Segment) (s : Segment) (older stay gone : List Segment)
      → segments ≡ reverse (s ∷ older) ++ stay
      → (stay ≡ always) ⊎ (pos (total_by measure stay) ≤ℤ limit)
      → limit <ℤ pos (total_by measure stay + measure s)
      → Tight always segments gone (delete_all deletes (s ∷ older) stay gone)
  delete_all-Tight always segments s older stay gone split fits over =
      elim (delete_all_cases deletes (s ∷ older) stay gone) [
        | inl fine ↦ rw fine (fits, (s ∷ older, refl, split, over))
        | inr (g, t, stuck, refused) ↦ rw stuck (t, refused)
      ]

  limit_loop-Tight :
      (always segments rs stay gone : List Segment) (total : ℕ)
      → segments ≡ reverse rs ++ stay
      → total ≡ total_by measure stay
      → (stay ≡ always) ⊎ (pos (total_by measure stay) ≤ℤ limit)
      → Tight always segments gone (limit_loop deletes measure limit rs total stay gone)
  unfolding limit_loop
  limit_loop-Tight always segments [] stay gone total split e fits =
      (fits, ([], sym (append-nil gone), split, tt))
  limit_loop-Tight always segments (s ∷ older) stay gone total split e fits =
      elim (Bool-cases (ltb_ℤ limit (pos (total + measure s)))) [
        | inl over ↦ rw over (
            delete_all-Tight always segments s older stay gone split fits (ground (arith, over, e)))
        | inr under ↦ rw under (
            limit_loop-Tight always segments older (s ∷ stay) gone (total + measure s)
              (split
                ∙ (ap (λ xs. xs ++ stay) (reverse-cons s older)
                    ∙ append_assoc (reverse older) (s ∷ []) stay))
              (omega arith) (inr (ground (arith, under, e))))
      ]

-- The byte limit cuts the segments of a log in two: those in front, which it deletes, newest first,
-- and those that it keeps. Those that it keeps are within the limit or are the active segment
-- alone, and with the newest of the deleted ones they would not have been within it. It does so
-- unless some segment cannot be deleted, in which case it may end in an error; it never panics.
pub apply_bytes_limit-Tight :
    (deletes : Segment → Bool) (limit : ℤ) (segments : List Segment) (last : Segment)
    (older gone : List Segment)
    → reverse segments ≡ last ∷ older
    → Tight deletes
        (λ s. s.position)
        limit
        (last ∷ [])
        segments
        gone
        (apply_bytes_limit deletes limit segments gone)
unfolding apply_bytes_limit bytes_from
apply_bytes_limit-Tight deletes limit segments last older gone e = rw e (
    limit_loop-Tight deletes (λ s. s.position) limit (last ∷ []) segments older (last ∷ []) gone
      last.position (sym (reverse-reverse segments) ∙ ap reverse e ∙ reverse-cons last older)
      (omega arith) (inl refl))
