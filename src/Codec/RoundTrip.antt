-- ===== src/Codec/RoundTrip.antt =====
-- A message that was encoded is read again.
use liftbridge.Common.{
  ℕ, suc, ◌+◌, ◌^◌, ◌<◌, ◌≡◌, refl, sym, ap, subst, ◌∙◌, List, [], ◌∷◌, ◌++◌, append_assoc, Option,
  none, some, length, length-append, All,
}
use liftbridge.Decimal.{Bytes}
use liftbridge.Envelope.BigEndian.{put_be, read_be-put_be, length-put_be}
use liftbridge.Codec.{
  Header, Message, add_length, and_length, bytes_length, string_length, headers_length,
  message_length, written, put_bytes, put_string, put_headers, put_body, encode, at, read_field,
  read_sized, read_key, after_key, read_value, cons_header, read_headers_from, count_of,
  headers_after, read_headers,
}
use liftbridge.Codec.Fields.{at-number, read_field-put, read_string-put, read_bytes-put}

-- The value of a header is not nil.
abbrev pub HasValue : Header → Type 0
HasValue h = (v : Bytes) × (h.value ≡ some v)

add_length-some : (k n : ℕ) (o : Option ℕ) → add_length k o ≡ some n → (j : ℕ) × (o ≡ some j)
add_length-some k n none h = cc
add_length-some k n (some j) h = (j, refl)

and_length-some :
    (n : ℕ) (a b : Option ℕ)
    → and_length a b ≡ some n
    → ((j : ℕ) × (a ≡ some j)) × ((j : ℕ) × (b ≡ some j))
and_length-some n none b h = cc
and_length-some n (some j) b h = ((j, refl), add_length-some j n b h)

-- A piece that is moved in front.
moved : (a b c : Bytes) → a ++ (b ++ c) ≡ (a ++ b) ++ c
moved a b c = sym (append_assoc a b c)

read_header-step :
    (j n0 n1 n2 : ℕ) (m name v : Bytes) (hs : List Header)
    → read_sized 2 n0 m ≡ some (record { content = name; end = n1 })
    → read_sized 4 n1 m ≡ some (record { content = v; end = n2 })
    → read_headers_from j n2 m ≡ some hs
    → read_headers_from (suc j) n0 m ≡ some ((record { name = name; value = some v }) ∷ hs)
unfolding cons_header read_headers_from
read_header-step j n0 n1 n2 m name v hs first second rest =
    rw (read_headers_from, first, second, rest, cons_header) refl

-- The headers behind some bytes.
read_headers-put :
    (hs : List Header) (n : ℕ) (pre : Bytes)
    → headers_length hs ≡ some n
    → All HasValue hs
    → read_headers_from (length hs) (length pre) (pre ++ put_headers hs) ≡ some hs
unfolding put_headers headers_length read_headers_from
read_headers-put [] n pre h k = refl
read_headers-put (x ∷ hs) n pre h k =
    let v = k.0.0 in
    let lengths = and_length-some n (string_length x.name) _ h in
    let inner =
      and_length-some lengths.1.0 (bytes_length x.value) (headers_length hs) lengths.1.1 in
    let fits : bytes_length (some v) ≡ some inner.0.0 =
      subst (λ o. bytes_length o ≡ some inner.0.0) k.0.1 inner.0.1 in
    let s = put_string x.name in
    let b = put_bytes (some v) in
    let post = put_headers hs in
    let m = pre ++ (s ++ (b ++ post)) in
    let m1 : (pre ++ s) ++ (b ++ post) ≡ m = append_assoc pre s (b ++ post) in
    let m2 : ((pre ++ s) ++ b) ++ post ≡ m = append_assoc (pre ++ s) b post ∙ m1 in
    let first = read_string-put x.name lengths.0.0 pre (b ++ post) lengths.0.1 in
    let n1 : length (pre ++ s) ≡ length pre + length s = length-append pre s in
    let second : read_sized 4 (length pre + length s) m
        ≡ some (record { content = v; end = length ((pre ++ s) ++ b) }) =
      subst
        (λ i. read_sized 4 i m ≡ some (record { content = v; end = length (pre ++ s) + length b }))
        n1
        (subst
          (λ bs.
            read_sized 4 (length (pre ++ s)) bs
            ≡ some (record { content = v; end = length (pre ++ s) + length b }))
          m1 (read_bytes-put v inner.0.0 (pre ++ s) post fits))
      ∙ ap (λ e. some (record { content = v; end = e })) (sym (length-append (pre ++ s) b)) in
    let rest : read_headers_from (length hs) (length ((pre ++ s) ++ b)) m ≡ some hs =
      subst (λ bs. read_headers_from (length hs) (length ((pre ++ s) ++ b)) bs ≡ some hs) m2
        (read_headers-put hs inner.1.0 ((pre ++ s) ++ b) inner.1.1 k.1) in
    let whole = read_header-step (length hs) (length pre) _ _ m x.name v hs first second rest in
    subst
      (λ o.
        read_headers_from (suc (length hs)) (length pre) (pre ++ (s ++ (put_bytes o ++ post)))
        ≡ some ((record { name = x.name; value = o }) ∷ hs))
      (sym k.0.1) whole

-- What is read from the bytes of a message.
pub record Reads (bs : Bytes) (m : Message) : Type 0 where
  pub key_end : ℕ
  pub key : read_key bs ≡ some (record { content = m.key; end = key_end })
  pub value_end : ℕ
  pub value : read_value bs ≡ some (record { content = m.value; end = value_end })
  pub headers : read_headers bs ≡ some m.headers

-- A field in front of others, with the position behind it.
read_field-at :
    (f : Option Bytes) (n i : ℕ) (pre post bs : Bytes)
    → bytes_length f ≡ some n
    → length pre ≡ i
    → pre ++ (put_bytes f ++ post) ≡ bs
    → read_field i bs ≡ some (record { content = f; end = length (pre ++ put_bytes f) })
read_field-at f n i pre post bs h place same =
    subst (λ j. read_field j bs ≡ some (record { content = f; end = length (pre ++ put_bytes f) }))
      place
      (subst
        (λ m.
          read_field (length pre) m
          ≡ some (record { content = f; end = length (pre ++ put_bytes f) }))
        same
        (read_field-put f n pre post h
          ∙ ap (λ e. some (record { content = f; end = e }))
              (sym (length-append pre (put_bytes f)))))

count_of-put :
    (hs : List Header) (n : ℕ) (pre bs : Bytes)
    → headers_length hs ≡ some n
    → All HasValue hs
    → length hs < 256 ^ 2
    → pre ++ (put_be 2 (length hs) ++ put_headers hs) ≡ bs
    → count_of (length pre) bs (at (length pre) 2 bs) ≡ some hs
unfolding count_of
count_of-put hs n pre bs h k few same =
    let number : at (length pre) 2 bs ≡ some (put_be 2 (length hs)) =
      subst (λ m. at (length pre) 2 m ≡ some (put_be 2 (length hs))) same
        (at-number 2 (length hs) pre (put_headers hs)) in
    let place : length (pre ++ put_be 2 (length hs)) ≡ length pre + 2 =
      length-append pre (put_be 2 (length hs))
      ∙ ap (λ j. length pre + j) (length-put_be 2 (length hs)) in
    let rest : read_headers_from (length hs) (length pre + 2) bs ≡ some hs =
      subst (λ j. read_headers_from (length hs) j bs ≡ some hs) place
        (subst
          (λ m. read_headers_from (length hs) (length (pre ++ put_be 2 (length hs))) m ≡ some hs)
          (append_assoc pre (put_be 2 (length hs)) (put_headers hs) ∙ same)
          (read_headers-put hs n (pre ++ put_be 2 (length hs)) h k)) in
    ap (count_of (length pre) bs) number
    ∙ ap (λ j. read_headers_from j (length pre + 2) bs) (read_be-put_be 2 (length hs) few)
    ∙ rest

body-Reads :
    (m : Message) (pre : Bytes) (n : ℕ)
    → length pre ≡ 6
    → message_length m ≡ some n
    → length m.headers < 256 ^ 2
    → All HasValue m.headers
    → Reads
        (pre
          ++ (put_bytes m.key
              ++ (put_bytes m.value ++ (put_be 2 (length m.headers) ++ put_headers m.headers))))
        m
unfolding message_length read_key read_value after_key read_headers headers_after
body-Reads m pre n six h few k =
    let rest = add_length-some 6 n _ h in
    let keys = and_length-some rest.0 (bytes_length m.key) _ rest.1 in
    let values = and_length-some keys.1.0 (bytes_length m.value) _ keys.1.1 in
    let count = add_length-some 2 values.1.0 _ values.1.1 in
    let a = put_bytes m.key in
    let b = put_bytes m.value in
    let cd = put_be 2 (length m.headers) ++ put_headers m.headers in
    let bs = pre ++ (a ++ (b ++ cd)) in
    let one : (pre ++ a) ++ (b ++ cd) ≡ bs = append_assoc pre a (b ++ cd) in
    let key = read_field-at m.key keys.0.0 6 pre (b ++ cd) bs keys.0.1 six refl in
    let second = read_field-at m.value values.0.0 _ (pre ++ a) cd bs values.0.1 refl one in
    let value = ap (after_key bs) key ∙ second in
    let two : ((pre ++ a) ++ b) ++ cd ≡ bs = append_assoc (pre ++ a) b cd ∙ one in
    let last = count_of-put m.headers count.0 ((pre ++ a) ++ b) bs count.1 k few two in
    record {
      key_end = length (pre ++ a);
      key = key;
      value_end = length ((pre ++ a) ++ b);
      value = value;
      headers = ap (headers_after bs) value ∙ last;
    }

written-some :
    (o : Option ℕ) (x bs : Bytes) → written o x ≡ some bs → ((n : ℕ) × (o ≡ some n)) × (x ≡ bs)
unfolding written
written-some none x bs h = cc
written-some (some n) x bs h = ((n, refl), cc)

module _ (crc : Bytes → ℕ) where
  -- What encode returns for a message, with fewer than 2 ^ 16 headers none of which has a nil value,
  -- has the key, the value and the headers of the message where the readers look for them; a nil key
  -- or value is read as nil, an empty one as empty.
  pub encode-Reads :
      (m : Message) (bs : Bytes)
      → encode crc m ≡ some bs
      → length m.headers < 256 ^ 2
      → All HasValue m.headers
      → Reads bs m
  unfolding encode put_body
  encode-Reads m bs e few k =
      let pre = put_be 4 (crc (put_body m)) ++ (m.magic_byte ∷ (m.attributes ∷ [])) in
      let found = written-some (message_length m) _ bs e in
      let fields =
        put_bytes m.key
        ++ (put_bytes m.value ++ (put_be 2 (length m.headers) ++ put_headers m.headers)) in
      subst (λ b. Reads b m)
        (append_assoc (put_be 4 (crc (put_body m))) (m.magic_byte ∷ (m.attributes ∷ [])) fields
          ∙ found.1)
        (body-Reads m pre found.0.0 refl found.0.1 few k)
