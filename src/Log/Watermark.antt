-- ===== src/Log/Watermark.antt =====
-- The high watermark of a log.
use liftbridge.Common.{
  ◌≡◌, refl, ◌⊎◌, inl, inr, ℤ, ◌≤ℤ◌, ltb_ℤ, [], arith, Bool-cases, ℕ, ◌≢◌, ◌<ℤ◌, eqb_ℤ, lt→ltb_ℤ,
  true, false, ◌∷◌,
}
use liftbridge.Log.{Log, newest_offset, set_high_watermark, notify_hw_waiters, wait_for_hw}

-- Setting the high watermark never lowers it, never leaves it below the value that is set, and
-- takes it from nowhere else; where it changes, everybody who waits for it is told.
pub set_high_watermark_lem :
    (l : Log) (hw : ℤ)
    → let l' = set_high_watermark l hw in
      (l.hw ≤ℤ l'.hw) × (hw ≤ℤ l'.hw) × ((l' ≡ l) ⊎ ((l'.hw ≡ hw) × (l'.hw_waiters ≡ [])))
unfolding set_high_watermark
set_high_watermark_lem l hw = ground arith

-- Nothing else of the log depends on it.
pub set_high_watermark_same :
    (l : Log) (hw : ℤ)
    → let l' = set_high_watermark l hw in
      (l'.older ≡ l.older) × (l'.active ≡ l.active) × (newest_offset l' ≡ newest_offset l)
unfolding set_high_watermark notify_hw_waiters newest_offset
set_high_watermark_same l hw = elim (Bool-cases (ltb_ℤ l.hw hw)) [
  | inl higher ↦ rw higher (refl, refl, refl)
  | inr lower ↦ rw lower (refl, refl, refl)
]

-- A reader whose channel is left open waits at the high watermark itself and is registered; so the
-- next watermark that is higher tells it, and takes it off the list. A reader that waits at another
-- one is told at once, and the log stays.
pub wait_for_hw_lem :
    (l : Log) (waiter : ℕ) (hw next : ℤ)
    → l.hw <ℤ next
    → let waits = wait_for_hw l waiter hw in
      ((waits.1 ≡ true) × (waits.0 ≡ l) × (l.hw ≢ hw))
      ⊎ ((waits.1 ≡ false)
          × (l.hw ≡ hw)
          × (waits.0.hw_waiters ≡ waiter ∷ l.hw_waiters)
          × ((set_high_watermark waits.0 next).hw_waiters ≡ []))
unfolding wait_for_hw set_high_watermark notify_hw_waiters
wait_for_hw_lem l waiter hw next higher = elim (Bool-cases (eqb_ℤ l.hw hw)) [
  | inl same ↦
      let above : ltb_ℤ l.hw next ≡ true = lt→ltb_ℤ l.hw next higher in
      inr (simp (same, above) (refl, ground (arith, same), refl, refl))
  | inr other ↦ inl (simp other (refl, refl, ground (arith, other)))
]
