-- ===== src/Log/Timestamp/Probe.antt =====
-- The search for the segment of a timestamp: it is the plain search, and fails if it looks at a
-- segment without entries.
use liftbridge.Common.{
  ℕ, zero, suc, ◌+◌, ◌-◌, ◌/◌, ◌≤◌, ◌<◌, ◌≡◌, refl, ◌⊎◌, inl, inr, Bool, true, false, Option, none,
  some, arith, ltb, ltb→lt, Bool-cases,
}
use native.Mathlib.Decide.{dec_lt}
use liftbridge.Common.Search.{search, search_loop}
use liftbridge.Log.Timestamp.{probe_loop}

-- A failure counts as true.
abbrev pub or_true : Option Bool → Bool
or_true none = true
or_true (some b) = b

-- A test that does not fail is not remembered as one that does.
probe_loop-search :
    (k n : ℕ) (f : ℕ → Option Bool) (g : ℕ → Bool) (i j : ℕ)
    → ((m : ℕ) → m < n → f m ≡ some (g m))
    → j ≤ n
    → probe_loop k f i j false ≡ (search_loop k g i j, false)
unfolding probe_loop search_loop
probe_loop-search zero n f g i j ok top = refl
probe_loop-search (suc k) n f g i j ok top = elim (Bool-cases (ltb i j)) [
  | inr done ↦ rw (done, probe_loop, search_loop) refl
  | inl more ↦
      let lt : i < j = ltb→lt i j more in
      rw (more, probe_loop, search_loop, ok ((i + j) / 2) (omega arith))
        (elim (Bool-cases (g ((i + j) / 2))) [
          | inl at ↦ rw at (probe_loop-search k n f g i ((i + j) / 2) ok (omega arith))
          | inr over ↦ rw over (probe_loop-search k n f g ((i + j) / 2 + 1) j ok top)
        ])
]

pub probe_loop-search_all :
    (n : ℕ) (f : ℕ → Option Bool) (g : ℕ → Bool)
    → ((m : ℕ) → m < n → f m ≡ some (g m))
    → probe_loop n f 0 n false ≡ (search n g, false)
unfolding search
probe_loop-search_all n f g ok = probe_loop-search n n f g 0 n ok (omega arith)

-- Where every test but the last is false and the last one fails, the failure is remembered.
pub probe_loop-fails :
    (k n : ℕ) (f : ℕ → Option Bool) (i j : ℕ) (err : Bool)
    → ((m : ℕ) → m < n → f m ≡ some false)
    → f n ≡ none
    → j - i ≤ k
    → i ≤ n
    → (j ≡ suc n) ⊎ ((j ≡ n) × (err ≡ true))
    → (probe_loop k f i j err).1 ≡ true
unfolding probe_loop
probe_loop-fails zero n f i j err low bad small le at = elim at [
  | inl whole ↦ absurd (omega (arith, small, le, whole))
  | inr (e, failed) ↦ failed
]
probe_loop-fails (suc k) n f i j err low bad small le at = elim (Bool-cases (ltb i j)) [
  | inr done ↦
      rw (done, probe_loop)
        (elim at [
          | inl whole ↦ absurd (ground (arith, done, le, whole))
          | inr (e, failed) ↦ failed
        ])
  | inl more ↦
      let lt : i < j = ltb→lt i j more in
      elim (dec_lt ((i + j) / 2) n) [
        | yes inside ↦
            rw (more, probe_loop, low ((i + j) / 2) inside)
              (probe_loop-fails k n f ((i + j) / 2 + 1) j err low bad (omega arith) (omega arith)
                at)
        | no last ↦
            let here : (i + j) / 2 ≡ n = elim at [
              | inl whole ↦ omega arith
              | inr (e, failed) ↦ omega arith
            ] in
            let fails : f ((i + j) / 2) ≡ none = rw here bad in
            rw (more, probe_loop, fails)
              (probe_loop-fails k n f i ((i + j) / 2) true low bad (omega arith) le
                (inr (here, refl)))
      ]
]
