-- ===== src/Decimal/RoundTrip.antt =====
-- Reading a printed integer gives it back.
use liftbridge.Common.{
  ℕ, zero, suc, ◌+◌, ◌-◌, ◌*◌, ◌/◌, ◌%◌, ◌≤◌, ◌<◌, ◌≡◌, refl, ◌∙◌, ℤ, pos, negsuc, [], ◌∷◌, All,
  some, arith, inl, inr, Bool-cases, ◌==◌, lt→ltb, false, ◌≤ℤ◌, ◌<ℤ◌,
}
use liftbridge.Decimal.{
  Bytes, digits, format_uint, format_int, scan_digits, parse_digits, parse_int, positive,
  int64_bound,
}

abbrev pub IsDigit : ℕ → Type 0
IsDigit c = (b'0' ≤ c) × (c ≤ b'9')

scan_digits-cons :
    (d : ℕ) (s : Bytes) (n : ℕ)
    → d < 10
    → scan_digits ((b'0' + d) ∷ s) n ≡ scan_digits s (n * 10 + d)
unfolding scan_digits
scan_digits-cons d s n h = ground (arith)

scan_digits-digits :
    (k n : ℕ) (out : Bytes) → n ≤ k → scan_digits (digits k n out) 0 ≡ scan_digits out n
unfolding digits
scan_digits-digits zero n out h = let e : n ≡ 0 = omega arith in rw e
scan_digits-digits (suc k) n out h = elim (Bool-cases (n == 0)) [
  | inl nil ↦ let e : n ≡ 0 = ground arith in rw (nil, digits) (rw e)
  | inr more ↦
      let small : n / 10 ≤ k = ground arith in
      let whole : n / 10 * 10 + n % 10 ≡ n = omega arith in
      rw (more, digits)
        (scan_digits-digits k (n / 10) ((b'0' + n % 10) ∷ out) small
          ∙ (scan_digits-cons (n % 10) out (n / 10) (omega arith) ∙ rw whole))
]

-- A printed number starts with a digit and holds nothing but digits.
pub record IsNumeral (s : Bytes) : Type 0 where
  pub head : ℕ
  pub rest : Bytes
  pub split : s ≡ head ∷ rest
  pub all : All IsDigit s

digits-IsNumeral :
    (k n c : ℕ) (out : Bytes) → All IsDigit (c ∷ out) → IsNumeral (digits k n (c ∷ out))
unfolding digits
digits-IsNumeral zero n c out h = record { head = c; rest = out; split = refl; all = h }
digits-IsNumeral (suc k) n c out h = elim (Bool-cases (n == 0)) [
  | inl nil ↦ rw (nil, digits) (record { head = c; rest = out; split = refl; all = h })
  | inr more ↦
      rw (more, digits)
        (digits-IsNumeral k (n / 10) (b'0' + n % 10) (c ∷ out) ((omega arith, omega arith), h))
]

-- The printer's tests on a number that is not 0.
format_uint-suc : (n : ℕ) → format_uint (suc n) ≡ digits (suc n) (suc n) []
unfolding format_uint
format_uint-suc n = let e : (suc n == 0) ≡ false = ground arith in rw e

digits-suc : (n : ℕ) → digits (suc n) (suc n) [] ≡ digits n (suc n / 10) ((b'0' + suc n % 10) ∷ [])
unfolding digits
digits-suc n = let e : (suc n == 0) ≡ false = ground arith in rw e

pub format_uint-IsNumeral : (n : ℕ) → IsNumeral (format_uint n)
format_uint-IsNumeral zero =
    unfold format_uint in
    record { head = b'0'; rest = []; split = refl; all = ((omega arith, omega arith), tt) }
format_uint-IsNumeral (suc n) =
    rw (format_uint-suc n, digits-suc n)
      (digits-IsNumeral n (suc n / 10) (b'0' + suc n % 10) [] ((omega arith, omega arith), tt))

scan_digits-format_uint : (n : ℕ) → scan_digits (format_uint n) 0 ≡ some n
unfolding scan_digits
scan_digits-format_uint zero = unfold format_uint in refl
scan_digits-format_uint (suc n) =
    rw (format_uint-suc n) (scan_digits-digits (suc n) (suc n) [] (omega arith))

parse_digits-format_uint : (n : ℕ) → parse_digits (format_uint n) ≡ some n
unfolding parse_digits
parse_digits-format_uint n =
    let v = format_uint-IsNumeral n in rw v.split (rw v.split at (scan_digits-format_uint n))

-- A text that begins with a digit has no sign.
parse_int_unsigned :
    (c : ℕ) (s : Bytes) (n : ℕ)
    → IsDigit c
    → parse_digits (c ∷ s) ≡ some n
    → n < int64_bound
    → parse_int (c ∷ s) ≡ some (pos n)
unfolding parse_int
parse_int_unsigned c s n h e lt = unfold positive in ground arith

-- The text of an integer in the range of an int64 is read back as that integer.
pub parse_int-format_int :
    (n : ℤ)
    → negsuc (int64_bound - 1) ≤ℤ n
    → n <ℤ pos int64_bound
    → parse_int (format_int n) ≡ some n
unfolding parse_int format_int
parse_int-format_int (pos n) lo hi =
    let v = format_uint-IsNumeral n in
    rw v.split (
      parse_int_unsigned v.head v.rest n (rw v.split at v.all).0
        (rw v.split at (parse_digits-format_uint n)) (omega arith))
parse_int-format_int (negsuc n) lo hi =
    rw (parse_digits-format_uint (suc n)) (rw (lt→ltb n int64_bound (omega arith)))
