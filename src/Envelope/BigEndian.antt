-- ===== src/Envelope/BigEndian.antt =====
-- Big-endian numbers, as Go's encoding/binary writes and reads them.
use liftbridge.Common.{
  ℕ, zero, suc, ◌+◌, ◌*◌, ◌/◌, ◌%◌, ◌^◌, ◌<◌, ◌≡◌, refl, ◌∙◌, [], ◌∷◌, ◌++◌, arith, length,
  length-append,
}
use liftbridge.Decimal.{Bytes}

-- The lowest bytes of a number, so many of them.
abbrev pub put_be : ℕ → ℕ → Bytes
put_be zero n = []
put_be (suc k) n = put_be k (n / 256) ++ n % 256 ∷ []

abbrev pub read_be_from : ℕ → Bytes → ℕ
read_be_from n [] = n
read_be_from n (b ∷ bs) = read_be_from (n * 256 + b) bs

abbrev pub read_be : Bytes → ℕ
read_be bs = read_be_from 0 bs

read_be_from-snoc :
    (n : ℕ) (bs : Bytes) (b : ℕ) → read_be_from n (bs ++ b ∷ []) ≡ read_be_from n bs * 256 + b
read_be_from-snoc n [] b = refl
read_be_from-snoc n (c ∷ bs) b = read_be_from-snoc (n * 256 + c) bs b

pub length-put_be : (k n : ℕ) → length (put_be k n) ≡ k
length-put_be zero n = refl
length-put_be (suc k) n =
    length-append (put_be k (n / 256)) (n % 256 ∷ []) ∙ omega (arith, length-put_be k (n / 256))

pow_lem : (k : ℕ) → 256 ^ suc k ≡ 256 ^ k * 256
pow_lem k = omega arith

-- What was written is read again, if it fits.
pub read_be-put_be : (k n : ℕ) → n < 256 ^ k → read_be (put_be k n) ≡ n
read_be-put_be zero n h = omega arith
read_be-put_be (suc k) n h =
    read_be_from-snoc 0 (put_be k (n / 256)) (n % 256)
    ∙ omega (arith, read_be-put_be k (n / 256) (omega (arith, pow_lem k)))
