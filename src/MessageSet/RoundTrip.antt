-- ===== src/MessageSet/RoundTrip.antt =====
-- A message set that has been written is read again.
use liftbridge.Common.{
  ℕ, zero, suc, ◌+◌, ◌-◌, ◌%◌, ◌^◌, ◌<◌, ◌≡◌, refl, sym, ap, subst, eq_of_parts, ◌∙◌, ℤ, pos, ◌+ℤ◌,
  true, false, List, [], ◌∷◌, ◌++◌, map, some, arith, ltb, leb, length, length-append, drop,
  take-append, drop-append, append_assoc,
}
use liftbridge.Decimal.{Bytes}
use liftbridge.Segment.{Record}
use liftbridge.Log.{new_records}
use liftbridge.Envelope.{uint64}
use liftbridge.Envelope.BigEndian.{read_be-put_be}
use liftbridge.Envelope.RoundTrip.{IsInt64, int64-uint64, uint64-lt}
use liftbridge.MessageSet.{
  header_len, int32, Entry, new_entries, Encoded, put_header, new_message_set, key_of, logged,
  parsed, entry_size, entry_at, parse, parse_message_set,
}

-- A message whose numbers fit into their fields.
pub record FitsFields (offset : ℤ) (m : Encoded) : Type 0 where
  pub offset_fits : IsInt64 offset
  pub timestamp_fits : IsInt64 m.timestamp
  pub epoch_fits : m.leader_epoch < 2 ^ 64
  pub size_fits : header_len + length m.content < 2 ^ 31
  pub not_empty : 0 < length m.content

-- The messages of a set, with the offsets that they get.
abbrev pub AllFit : ℤ → List Encoded → Type 0
AllFit offset [] = Unit
AllFit offset (m ∷ ms) = FitsFields offset m × AllFit (offset +ℤ pos 1) ms

pub length-put_header : (offset : ℤ) (m : Encoded) → length (put_header offset m) ≡ header_len
unfolding put_header
length-put_header offset m = refl

entry_size_lem :
    (size : ℕ) → header_len + size < 2 ^ 31 → entry_size size ≡ some (header_len + size)
unfolding entry_size
entry_size_lem size h =
    let same : (size + header_len) % 2 ^ 32 ≡ header_len + size = omega (arith, h) in
    let small : ltb (header_len + size) (2 ^ 31) ≡ true = ground (arith, h) in rw (same, small) refl

-- The entry of the message at the front.
entry_at-put :
    (base : ℕ) (offset : ℤ) (m : Encoded) (rest : Bytes)
    → FitsFields offset m
    → entry_at base (put_header offset m ++ (m.content ++ rest)) (header_len + length m.content)
      ≡ record {
        offset = offset;
        timestamp = m.timestamp;
        leader_epoch = m.leader_epoch;
        position = base;
        size = header_len + length m.content;
        key = key_of m.content;
      }
unfolding entry_at put_header
entry_at-put base offset m rest f =
    let o = read_be-put_be 8 (uint64 offset) (uint64-lt offset f.offset_fits) in
    let t = read_be-put_be 8 (uint64 m.timestamp) (uint64-lt m.timestamp f.timestamp_fits) in
    let e = read_be-put_be 8 m.leader_epoch f.epoch_fits in
    let o' = int64-uint64 offset f.offset_fits in
    let t' = int64-uint64 m.timestamp f.timestamp_fits in
    let n : header_len + length m.content - header_len ≡ length m.content = omega arith in
    rw (o, t, e, o', t', n, take-append m.content rest) refl

drop_entry :
    (offset : ℤ) (m : Encoded) (rest : Bytes)
    → drop (header_len + length m.content) (put_header offset m ++ (m.content ++ rest)) ≡ rest
drop_entry offset m rest =
    let front = put_header offset m ++ m.content in
    let whole = sym (append_assoc (put_header offset m) m.content rest) in
    let size : length front ≡ header_len + length m.content =
      length-append (put_header offset m) m.content
      ∙ ap (λ n. n + length m.content) (length-put_header offset m) in
    ap (λ bs. drop (header_len + length m.content) bs) whole
    ∙ ap (λ n. drop n (front ++ rest)) (sym size)
    ∙ drop-append front rest

pub length-entry :
    (offset : ℤ) (m : Encoded) (rest : Bytes)
    → length (put_header offset m ++ (m.content ++ rest))
      ≡ header_len + length m.content + length rest
length-entry offset m rest =
    length-append (put_header offset m) (m.content ++ rest)
    ∙ omega (arith, length-put_header offset m, length-append m.content rest)

-- A round of the loop on a message that has been written.
pub parse-put :
    (k base : ℕ) (offset : ℤ) (m : Encoded) (rest : Bytes) (rs : List Record)
    → FitsFields offset m
    → parse k (base + (header_len + length m.content)) rest ≡ parsed rs
    → parse (suc k) base (put_header offset m ++ (m.content ++ rest))
      ≡ parsed (
          record {
            offset = offset;
            timestamp = m.timestamp;
            leader_epoch = m.leader_epoch;
            position = base;
            size = header_len + length m.content;
            key = key_of m.content;
          }
          ∷ rs)
unfolding parse put_header
parse-put k base offset m rest rs f later =
    let length_fits = f.size_fits in
    let read = read_be-put_be 4 (length m.content) (omega (arith, length_fits)) in
    let size = entry_size_lem (length m.content) length_fits in
    let all = length-entry offset m rest in
    let has_header : ltb (length (put_header offset m ++ (m.content ++ rest))) header_len ≡ false =
      ground (arith, all) in
    let has_all : ltb (length (put_header offset m ++ (m.content ++ rest)))
          (header_len + length m.content)
        ≡ false =
      ground (arith, all) in
    let entry = entry_at-put base offset m rest f in
    let dropped = drop_entry offset m rest in
    rw (has_header, read, size, has_all, entry, dropped, later) refl

parse-new_message_set :
    (k base : ℕ) (offset : ℤ) (ms : List Encoded)
    → length (new_message_set offset ms) < k
    → AllFit offset ms
    → parse k base (new_message_set offset ms) ≡ parsed (new_records offset base (map logged ms))
unfolding new_message_set new_records logged parse
parse-new_message_set zero base offset ms small f = absurd (omega (arith, small))
parse-new_message_set (suc k) base offset [] small f = refl
parse-new_message_set (suc k) base offset (m ∷ ms) small f =
    let rest = new_message_set (offset +ℤ pos 1) ms in
    let all = length-entry offset m rest in
    parse-put k base offset m rest _ f.0 (
      parse-new_message_set k (base + (header_len + length m.content)) (offset +ℤ pos 1) ms
        (omega (arith, all, small)) f.1)

parse_message_set-records :
    (base : ℕ) (offset : ℤ) (ms : List Encoded)
    → AllFit offset ms
    → parse_message_set base (new_message_set offset ms)
      ≡ parsed (new_records offset base (map logged ms))
unfolding parse_message_set
parse_message_set-records base offset [] f = unfold new_message_set new_records in refl
parse_message_set-records base offset (m ∷ ms) f =
    let rest = new_message_set (offset +ℤ pos 1) ms in
    let all = length-entry offset m rest in
    let some_bytes = f.0.not_empty in
    let long : leb (length (put_header offset m ++ (m.content ++ rest))) header_len ≡ false =
      ground (arith, all, some_bytes) in
    unfold new_message_set in
    rw long (
      parse-new_message_set (suc (length (new_message_set offset (m ∷ ms)))) base offset (m ∷ ms)
        (omega arith) f)

-- An entry that has been read.
abbrev pub entry_of : Record → Entry
entry_of r = record {
  offset = r.offset;
  timestamp = r.timestamp;
  leader_epoch = r.leader_epoch;
  position = pos r.position;
  size = pos r.size;
}

small_int32 : (n : ℕ) → n < 2 ^ 31 → int32 n ≡ pos n
unfolding int32
small_int32 n h =
    let same : n % 2 ^ 32 ≡ n = omega (arith, h) in
    let low : ltb n (2 ^ 31) ≡ true = ground (arith, h) in rw (same, low) refl

sum_of_pos : (a b : ℕ) → pos a +ℤ pos b ≡ pos (a + b)
unfolding ◌+ℤ◌
sum_of_pos a b = eq_of_parts _ _ (ground arith)

new_records-entries :
    (base n : ℕ) (offset : ℤ) (ms : List Encoded)
    → n + length (new_message_set offset ms) < 2 ^ 31
    → AllFit offset ms
    → map entry_of (new_records offset (base + n) (map logged ms)) ≡ new_entries offset base n ms
unfolding new_records new_entries new_message_set logged
new_records-entries base n offset [] small f = refl
new_records-entries base n offset (m ∷ ms) small f =
    let size = header_len + length m.content in
    let all = length-entry offset m (new_message_set (offset +ℤ pos 1) ms) in
    let here : pos base +ℤ int32 n ≡ pos (base + n) =
      ap (λ x. pos base +ℤ x) (small_int32 n (omega (arith, small))) ∙ sum_of_pos base n in
    let next : base + n + size ≡ base + (n + size) = omega arith in
    let rest =
      new_records-entries base (n + size) (offset +ℤ pos 1) ms (omega (arith, all, small)) f.1 in
    let size_is = small_int32 size f.0.size_fits in rw (here, size_is, next, rest) refl

-- The bytes of a message set of less than 2 GiB, whose numbers fit into their fields and none of whose
-- messages is empty, are read back as the index entries that were made when it was written, whose
-- positions are counted in an int32; and these are the records that the log takes for the messages.
pub parse_message_set-new_message_set :
    (base : ℕ) (offset : ℤ) (ms : List Encoded)
    → length (new_message_set offset ms) < 2 ^ 31
    → AllFit offset ms
    → (rs : List Record) × (parse_message_set base (new_message_set offset ms) ≡ parsed rs)
      × (map entry_of rs ≡ new_entries offset base 0 ms)
      × (rs ≡ new_records offset base (map logged ms))
parse_message_set-new_message_set base offset ms small f =
    let same : base + 0 ≡ base = omega arith in
    (
      new_records offset base (map logged ms),
      parse_message_set-records base offset ms f,
      subst
          (λ b. map entry_of (new_records offset b (map logged ms)) ≡ new_entries offset base 0 ms)
          same (new_records-entries base 0 offset ms (omega (arith, small)) f),
      refl,
    )
