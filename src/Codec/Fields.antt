-- ===== src/Codec/Fields.antt =====
-- What is written between two pieces of a message is read at its position.
use liftbridge.Common.{
  ℕ, ◌+◌, ◌^◌, ◌<◌, ◌≡◌, refl, sym, ap, subst, ◌∙◌, inl, inr, false, ◌++◌, append_assoc, Option,
  none, some, arith, ltb, ◌==◌, if_miss, length, length-append, take, take-append, drop-append,
  Bool-cases,
}
use liftbridge.Decimal.{Bytes}
use liftbridge.Envelope.BigEndian.{put_be, read_be, read_be-put_be, length-put_be}
use liftbridge.Codec.{
  max_int32, max_int16, minus_one_32, bytes_length, string_length, put_bytes, put_string, at,
  filled, field_of, read_field, sized_from, sized_of, read_sized,
}

at-mid : (pre x post : Bytes) → at (length pre) (length x) (pre ++ (x ++ post)) ≡ some x
unfolding at
at-mid pre x post =
    let long : length (pre ++ (x ++ post)) ≡ length pre + (length x + length post) =
      length-append pre (x ++ post) ∙ ap (λ n. length pre + n) (length-append x post) in
    let fits : ltb (length (pre ++ (x ++ post))) (length pre + length x) ≡ false =
      ground (arith, long) in
    if_miss (ltb (length (pre ++ (x ++ post))) (length pre + length x)) _ _ fits
    ∙ ap (λ bs. some (take (length x) bs)) (drop-append pre (x ++ post))
    ∙ ap some (take-append x post)

pub at-number :
    (k n : ℕ) (pre post : Bytes)
    → at (length pre) k (pre ++ (put_be k n ++ post)) ≡ some (put_be k n)
at-number k n pre post =
    subst (λ j. at (length pre) j (pre ++ (put_be k n ++ post)) ≡ some (put_be k n))
      (length-put_be k n) (at-mid pre (put_be k n) post)

-- The bytes after a number.
at-after :
    (k n : ℕ) (pre x post : Bytes)
    → at (length pre + k) (length x) (pre ++ ((put_be k n ++ x) ++ post)) ≡ some x
at-after k n pre x post =
    let place : length (pre ++ put_be k n) ≡ length pre + k =
      length-append pre (put_be k n) ∙ ap (λ j. length pre + j) (length-put_be k n) in
    let same : (pre ++ put_be k n) ++ (x ++ post) ≡ pre ++ ((put_be k n ++ x) ++ post) =
      append_assoc pre (put_be k n) (x ++ post)
      ∙ ap (λ bs. pre ++ bs) (sym (append_assoc (put_be k n) x post)) in
    subst (λ j. at j (length x) (pre ++ ((put_be k n ++ x) ++ post)) ≡ some x) place
      (subst (λ bs. at (length (pre ++ put_be k n)) (length x) bs ≡ some x) same
        (at-mid (pre ++ put_be k n) x post))

bytes_fit :
    (bs : Bytes) (n : ℕ) → bytes_length (some bs) ≡ some n → ltb max_int32 (length bs) ≡ false
unfolding bytes_length
bytes_fit bs n h = elim (Bool-cases (ltb max_int32 (length bs))) [
  | inl long ↦ cc (simp long at h)
  | inr fits ↦ fits
]

at-first :
    (k n : ℕ) (pre x post : Bytes)
    → at (length pre) k (pre ++ ((put_be k n ++ x) ++ post)) ≡ some (put_be k n)
at-first k n pre x post =
    subst (λ bs. at (length pre) k (pre ++ bs) ≡ some (put_be k n))
      (sym (append_assoc (put_be k n) x post)) (at-number k n pre (x ++ post))

field_of-some :
    (n size : ℕ) (m bs content : Bytes)
    → read_be bs ≡ size
    → ltb max_int32 size ≡ false
    → at (n + 4) size m ≡ some content
    → field_of n m (some bs) ≡ some (record { content = some content; end = n + 4 + size })
unfolding field_of filled
field_of-some n size m bs content e fits found =
    let other : (size == minus_one_32) ≡ false = ground (arith, fits) in
    rw e (
      if_miss (size == minus_one_32) _ _ other
      ∙ if_miss (ltb max_int32 size) _ _ fits
      ∙ ap (filled n size) found)

-- A nil slice, or a slice that is not too long, with where it ends.
pub read_field-put :
    (f : Option Bytes) (n : ℕ) (pre post : Bytes)
    → bytes_length f ≡ some n
    → read_field (length pre) (pre ++ (put_bytes f ++ post))
      ≡ some (record { content = f; end = length pre + length (put_bytes f) })
unfolding read_field put_bytes
read_field-put none n pre post h = rw (at-number 4 minus_one_32 pre post, field_of) refl
read_field-put (some bs) n pre post h =
    let fits = bytes_fit bs n h in
    let small : length bs < 256 ^ 4 = ground (arith, fits) in
    let m = pre ++ ((put_be 4 (length bs) ++ bs) ++ post) in
    let end : length pre + 4 + length bs ≡ length pre + length (put_be 4 (length bs) ++ bs) =
      omega (arith, length-append (put_be 4 (length bs)) bs, length-put_be 4 (length bs)) in
    ap (field_of (length pre) m) (at-first 4 (length bs) pre bs post)
    ∙ field_of-some (length pre) (length bs) m (put_be 4 (length bs)) bs
        (read_be-put_be 4 (length bs) small) fits (at-after 4 (length bs) pre bs post)
    ∙ ap (λ e. some (record { content = some bs; end = e })) end

sized_of-some :
    (n k size : ℕ) (m bs content : Bytes)
    → read_be bs ≡ size
    → ltb max_int32 size ≡ false
    → at (n + k) size m ≡ some content
    → sized_of n k m (some bs) ≡ some (record { content = content; end = n + k + length content })
unfolding sized_of sized_from
sized_of-some n k size m bs content e fits found =
    rw e (if_miss (ltb max_int32 size) _ _ fits ∙ ap (sized_from (n + k)) found)

-- The name of a header, and its value.
read_sized-put :
    (k : ℕ) (bs pre post : Bytes)
    → length bs < 256 ^ k
    → ltb max_int32 (length bs) ≡ false
    → read_sized k (length pre) (pre ++ ((put_be k (length bs) ++ bs) ++ post))
      ≡ some (record { content = bs; end = length pre + length (put_be k (length bs) ++ bs) })
unfolding read_sized
read_sized-put k bs pre post small fits =
    let m = pre ++ ((put_be k (length bs) ++ bs) ++ post) in
    let end : length pre + k + length bs ≡ length pre + length (put_be k (length bs) ++ bs) =
      omega (arith, length-append (put_be k (length bs)) bs, length-put_be k (length bs)) in
    ap (sized_of (length pre) k m) (at-first k (length bs) pre bs post)
    ∙ sized_of-some (length pre) k (length bs) m (put_be k (length bs)) bs
        (read_be-put_be k (length bs) small) fits (at-after k (length bs) pre bs post)
    ∙ ap (λ e. some (record { content = bs; end = e })) end

name_fits :
    (bs : Bytes) (n : ℕ)
    → string_length bs ≡ some n
    → (length bs < 256 ^ 2) × (ltb max_int32 (length bs) ≡ false)
unfolding string_length
name_fits bs n h = elim (Bool-cases (ltb max_int16 (length bs))) [
  | inl long ↦ cc (simp long at h)
  | inr fits ↦ (ground (arith, fits), ground (arith, fits))
]

pub read_string-put :
    (bs : Bytes) (n : ℕ) (pre post : Bytes)
    → string_length bs ≡ some n
    → read_sized 2 (length pre) (pre ++ (put_string bs ++ post))
      ≡ some (record { content = bs; end = length pre + length (put_string bs) })
unfolding put_string
read_string-put bs n pre post h =
    let fits = name_fits bs n h in read_sized-put 2 bs pre post fits.0 fits.1

pub read_bytes-put :
    (bs : Bytes) (n : ℕ) (pre post : Bytes)
    → bytes_length (some bs) ≡ some n
    → read_sized 4 (length pre) (pre ++ (put_bytes (some bs) ++ post))
      ≡ some (record { content = bs; end = length pre + length (put_bytes (some bs)) })
unfolding put_bytes
read_bytes-put bs n pre post h =
    let fits = bytes_fit bs n h in read_sized-put 4 bs pre post (ground (arith, fits)) fits
