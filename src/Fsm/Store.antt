-- ===== src/Fsm/Store.antt =====
-- The table of partitions as a map.
use liftbridge.Common.{
  ℕ, ◌≡◌, refl, inl, inr, false, ◌&&◌, List, [], ◌∷◌, some, arith, ◌==◌, Bool-cases,
}
use liftbridge.Partition.{Partition}
use liftbridge.Fsm.{Entry, is_at, get_partition, put_partition}

module _ {Q : Type 0} where
  -- What is put is found, and nothing else is touched.
  pub get-put :
      (stream id : ℕ) (p old : Partition Q) (es : List (Entry Q))
      → get_partition stream id es ≡ some old
      → get_partition stream id (put_partition stream id p es) ≡ some p
  unfolding get_partition put_partition
  get-put stream id p old [] h = cc
  get-put stream id p old (e ∷ es) h = elim (Bool-cases (is_at stream id e)) [
    | inl here ↦ simp (here, here) refl
    | inr later ↦ simp (later, later) (get-put stream id p old es (simp later at h))
  ]

  pub get-put_other :
      (stream id stream' id' : ℕ) (p : Partition Q) (es : List (Entry Q))
      → (stream' == stream && id' == id) ≡ false
      → get_partition stream' id' (put_partition stream id p es) ≡ get_partition stream' id' es
  unfolding get_partition put_partition
  get-put_other stream id stream' id' p [] h = refl
  get-put_other stream id stream' id' p (e ∷ es) h =
      let rest = get-put_other stream id stream' id' p es h in
      elim (Bool-cases (is_at stream id e)) [
        | inl here ↦
            let miss : is_at stream' id' e ≡ false = ground (arith, here, h) in
            simp (here, miss) rest
        | inr later ↦ elim (Bool-cases (is_at stream' id' e)) [
          | inl at ↦ simp (later, at) refl
          | inr miss ↦ simp (later, miss) rest
        ]
      ]
