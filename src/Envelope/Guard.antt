-- ===== src/Envelope/Guard.antt =====
-- Which envelopes are not refused but make the server panic.
use liftbridge.Common.{
  eqb_bytes, ℕ, ◌≤◌, ◌<◌, ◌≡◌, ◌↔◌, refl, inl, inr, Bool, true, false, not, arith, ltb, ◌==◌,
  ==_iff, if◌then◌else◌, length, take, drop, Bool-cases, ltb→lt, lt→ltb,
}
use liftbridge.Decimal.{Bytes}
use liftbridge.Envelope.{
  MsgType, code, magic_number, min_header_len, Result, ok, Error, error, panicked, byte_at,
  check_crc, check_payload, check_envelope, has_bit,
}

-- Three guards before a result.
guarded :
    {P A B C : Type 0} {r : Result Bytes}
    → ((r ≡ panicked) ↔ P)
    → (a b c : Bool) → ((a ≡ false) ↔ A)
    → ((b ≡ true) ↔ B)
    → ((c ≡ true) ↔ C)
    → ((if a
          then error Error.missing_header
          else if not b
          then error Error.wrong_magic_number
          else if not c
          then error Error.unknown_protocol
          else r)
        ≡ panicked)
      ↔ (A × B × C × P)
guarded p true b c x y z = ((λ h. cc), (λ h. let bad = x.1 h.0 in cc))
guarded p false false c x y z = ((λ h. cc), (λ h. let bad = y.1 h.1 in cc))
guarded p false true false x y z = ((λ h. cc), (λ h. let bad = z.1 h.2 in cc))
guarded p false true true x y z = ((λ h. (x.0 refl, y.0 refl, z.0 refl, p.0 h)), (λ h. p.1 h.3))

module _ (crc : Bytes → ℕ) where
  check_crc-answers :
      (bs : Bytes) (header_len : ℕ) (payload : Bytes)
      → ¬ (check_crc crc bs header_len payload ≡ panicked)
  unfolding check_crc
  check_crc-answers bs n payload h = ground (arith, h)

  check_payload-panics :
      (bs : Bytes) (t : MsgType) → (check_payload crc bs t ≡ panicked) ↔ (length bs < byte_at bs 5)
  unfolding check_payload
  check_payload-panics bs t = (
    λ h. elim (Bool-cases (ltb (length bs) (byte_at bs 5))) [
      | inl beyond ↦ ltb→lt (length bs) (byte_at bs 5) beyond
      | inr inside ↦
          absurd (answers (byte_at bs 7 == code t) (has_bit (byte_at bs 6) 0) (rw inside at h))
    ],
    λ h. rw (lt→ltb (length bs) (byte_at bs 5) h) refl,
  )
    where
      answers :
          (same flagged : Bool)
          → ¬ (
              (if not same
                then error Error.type_mismatch
                else if flagged
                then check_crc crc bs (byte_at bs 5) (drop (byte_at bs 5) bs)
                else ok (drop (byte_at bs 5) bs))
              ≡ panicked)
      answers false flagged h = cc
      answers true true h = check_crc-answers bs (byte_at bs 5) (drop (byte_at bs 5) bs) h
      answers true false h = cc

  -- The check of an envelope panics exactly where the first five bytes are right and the header
  -- length that the sixth byte gives is beyond the end of the data.
  pub check_envelope-panics :
      (bs : Bytes) (t : MsgType)
      → (check_envelope crc bs t ≡ panicked) ↔ (
          (min_header_len ≤ length bs)
          × (eqb_bytes (take 4 bs) magic_number ≡ true)
          × (byte_at bs 4 ≡ 0)
          × (length bs < byte_at bs 5))
  unfolding check_envelope
  check_envelope-panics bs t =
      guarded (check_payload-panics bs t) (ltb (length bs) min_header_len)
        (eqb_bytes (take 4 bs) magic_number) (byte_at bs 4 == 0) (ground arith) ((λ h. h), (λ h. h))
        (==_iff (byte_at bs 4) 0)
