-- ===== src/Common/Bytes.antt =====
-- Equality of byte slices.
use Prim.Native.Nat.{ℕ}
use mathlib.Core.Path.{◌≡◌, refl}
use mathlib.Core.Logic.{inl, inr}
use mathlib.Core.Bool.{Bool, true, false, ◌&&◌}
use mathlib.Core.List.{List, [], ◌∷◌}
use native.Mathlib.Omega.{arith}
use liftbridge.Common.Tests.{◌==◌, Bool-cases}

-- `bytes.Equal`, and equality of the strings of two slices.
abbrev pub eqb_bytes : List ℕ → List ℕ → Bool
eqb_bytes [] [] = true
eqb_bytes [] (b ∷ bs) = false
eqb_bytes (a ∷ as_) [] = false
eqb_bytes (a ∷ as_) (b ∷ bs) = a == b && eqb_bytes as_ bs

pub eqb_bytes-eq : (a b : List ℕ) → eqb_bytes a b ≡ true → a ≡ b
eqb_bytes-eq [] [] h = refl
eqb_bytes-eq [] (b ∷ bs) h = cc
eqb_bytes-eq (a ∷ as_) [] h = cc
eqb_bytes-eq (a ∷ as_) (b ∷ bs) h = elim (Bool-cases (a == b)) [
  | inl same ↦
      let head : a ≡ b = ground (arith, same) in
      let tail = eqb_bytes-eq as_ bs (simp same at h) in cc (head, tail)
  | inr other ↦ cc (simp other at h)
]

pub eqb_bytes_refl : (a : List ℕ) → eqb_bytes a a ≡ true
eqb_bytes_refl [] = refl
eqb_bytes_refl (a ∷ as_) =
    let same : (a == a) ≡ true = ground arith in simp same (eqb_bytes_refl as_)
