-- ===== src/Replicator/Fill.antt =====
-- The batch of messages that the leader sends in a response, and what the follower reads from it.
use liftbridge.Common.{
  ℕ, ◌+◌, ◌≤◌, ◌<◌, ◌^◌, ◌≡◌, refl, sym, ap, subst, ◌∙◌, inl, inr, ◌⊎◌, ℤ, ◌≤ℤ◌, ltb_ℤ,
  le→not_ltb_ℤ, Bool, true, false, List, [], ◌∷◌, ◌++◌, append_assoc, append-nil, map, some, arith,
  if_hit, if_miss, length, length-append, Bool-cases, All,
}
use liftbridge.Decimal.{Bytes}
use liftbridge.Envelope.{reset, write, flush, ok, unmarshal_replication_response}
use liftbridge.Envelope.RoundTrip.{IsInt64, unmarshal-flush}
use liftbridge.Replicator.{
  replication_max_size, headers_len, Found, Read, found, read_failed, filled, goes_on, is_over,
  fill, answer, serve, send_hw,
}

unfoldable pub bytes_of : List Found → Bytes
bytes_of [] = []
bytes_of (f ∷ fs) = f.headers ++ (f.message ++ bytes_of fs)

unfoldable pub last_offset : ℤ → List Found → ℤ
last_offset offset [] = offset
last_offset offset (f ∷ fs) = last_offset f.offset fs

-- The reader fills the whole of `headersBuf`.
abbrev pub HasHeaders : List Read → Type 0
HasHeaders [] = Unit
HasHeaders (found f ∷ reads) = (length f.headers ≡ headers_len) × HasHeaders reads
HasHeaders (read_failed ∷ reads) = HasHeaders reads

-- The reader returns messages up to the newest one without an error.
abbrev pub Reaches : ℤ → ℤ → List Read → Type 0
Reaches newest offset [] = newest ≤ℤ offset
Reaches newest offset (found f ∷ reads) = (newest ≤ℤ offset) ⊎ Reaches newest f.offset reads
Reaches newest offset (read_failed ∷ reads) = newest ≤ℤ offset

abbrev pub NextIsOver : Bytes → List Read → Type 0
NextIsOver buffer left =
    (f : Found) × (rest : List Read) × (left ≡ found f ∷ rest)
    × (1048576 < length buffer + 28 + length f.message)

-- Why a batch ends: nothing is newer, the buffer is full, or the next message does not fit.
abbrev pub Stops : ℤ → ℤ → Bytes → List Read → Type 0
Stops newest offset buffer left =
    (newest ≤ℤ offset) ⊎ ((length buffer ≡ replication_max_size) ⊎ NextIsOver buffer left)

-- The longest run of messages that fits.
pub record IsBatch (newest offset : ℤ) (buffer out : Bytes) (reads : List Read) : Type 0 where
  pub taken : List Found
  pub left : List Read
  pub split : reads ≡ map found taken ++ left
  pub content : out ≡ buffer ++ bytes_of taken
  pub fits : length out ≤ replication_max_size
  pub stops : Stops newest (last_offset offset taken) out left

stop_now :
    (newest offset : ℤ) (buffer : Bytes) (reads : List Read)
    → length buffer ≤ replication_max_size
    → Stops newest offset buffer reads
    → IsBatch newest offset buffer buffer reads
unfolding bytes_of last_offset
stop_now newest offset buffer reads small why = record {
  taken = [];
  left = reads;
  split = refl;
  content = sym (append-nil buffer);
  fits = small;
  stops = why;
}

stopped :
    (newest offset : ℤ) (buffer : Bytes) (reads : List Read)
    → length buffer ≤ replication_max_size
    → goes_on newest offset buffer ≡ false
    → Stops newest offset buffer reads
stopped newest offset buffer reads small h = elim (Bool-cases (ltb_ℤ offset newest)) [
  | inl behind ↦ inr (inl (ground (arith, behind, h)))
  | inr level ↦ inl (ground (arith, level))
]

length-write :
    (buffer headers message : Bytes)
    → length (write buffer headers message) ≡ length buffer + length headers + length message
unfolding write
length-write buffer headers message =
    length-append (buffer ++ headers) message
    ∙ ap (λ n. n + length message) (length-append buffer headers)

take_one :
    (newest offset : ℤ) (buffer out : Bytes) (f : Found) (reads : List Read)
    → IsBatch newest f.offset (write buffer f.headers f.message) out reads
    → IsBatch newest offset buffer out (found f ∷ reads)
unfolding write bytes_of last_offset
take_one newest offset buffer out f reads b = record {
  taken = f ∷ b.taken;
  left = b.left;
  split = ap (λ rs. found f ∷ rs) b.split;
  content =
      b.content
      ∙ append_assoc (buffer ++ f.headers) f.message (bytes_of b.taken)
      ∙ append_assoc buffer f.headers (f.message ++ bytes_of b.taken);
  fits = b.fits;
  stops = b.stops;
}

level_stops :
    (newest offset : ℤ) (buffer : Bytes) → newest ≤ℤ offset → goes_on newest offset buffer ≡ false
level_stops newest offset buffer h = rw (le→not_ltb_ℤ offset newest h) refl

go_further :
    (newest offset : ℤ) (buffer : Bytes) (f : Found) (reads : List Read)
    → goes_on newest offset buffer ≡ true
    → Reaches newest offset (found f ∷ reads)
    → Reaches newest f.offset reads
go_further newest offset buffer f reads on (inl level) =
    cc (on, level_stops newest offset buffer level)
go_further newest offset buffer f reads on (inr later) = later

room_left :
    (f : Found) (buffer : Bytes)
    → is_over f buffer ≡ false
    → length f.message + headers_len + length buffer ≤ replication_max_size
room_left f buffer h = ground (arith, h)

-- If the reader gets to the newest message, the loop gives a batch.
fill-IsBatch :
    (newest offset : ℤ) (buffer : Bytes) (reads : List Read)
    → length buffer ≤ replication_max_size
    → HasHeaders reads
    → Reaches newest offset reads
    → (out : Bytes) × (fill newest offset buffer reads ≡ filled out)
      × IsBatch newest offset buffer out reads
unfolding fill
fill-IsBatch newest offset buffer [] small k r =
    let ends : goes_on newest offset buffer ≡ false = level_stops newest offset buffer r in
    (
      buffer,
      if_miss (goes_on newest offset buffer) _ _ ends,
      stop_now newest offset buffer [] small (inl r),
    )
fill-IsBatch newest offset buffer (read_failed ∷ reads) small k r =
    let ends : goes_on newest offset buffer ≡ false = level_stops newest offset buffer r in
    (
      buffer,
      if_miss (goes_on newest offset buffer) _ _ ends,
      stop_now newest offset buffer (read_failed ∷ reads) small (inl r),
    )
fill-IsBatch newest offset buffer (found f ∷ reads) small k r =
    elim (Bool-cases (goes_on newest offset buffer)) [
      | inr ends ↦ (
        buffer,
        if_miss (goes_on newest offset buffer) _ _ ends,
        stop_now newest offset buffer (found f ∷ reads) small
            (stopped newest offset buffer (found f ∷ reads) small ends),
      )
      | inl on ↦ elim (Bool-cases (is_over f buffer)) [
        | inl over ↦ (
          buffer,
          if_hit (goes_on newest offset buffer) _ _ on ∙ if_hit (is_over f buffer) _ _ over,
          stop_now newest offset buffer (found f ∷ reads) small
              (inr (inr (f, reads, refl, ground (arith, over)))),
        )
        | inr under ↦
            let room : length (write buffer f.headers f.message) ≤ replication_max_size =
              omega
                (arith, length-write buffer f.headers f.message, k.0, room_left f buffer under) in
            let later : Reaches newest f.offset reads =
              go_further newest offset buffer f reads on r in
            let rest =
              fill-IsBatch newest f.offset (write buffer f.headers f.message) reads room k.1
                later in
            (
              rest.0,
              if_hit (goes_on newest offset buffer) _ _ on
                  ∙ if_miss (is_over f buffer) _ _ under
                  ∙ rest.1,
              take_one newest offset buffer rest.0 f reads rest.2,
            )
      ]
    ]

-- The first response for a batch, and what the follower reads from it.
pub record Answers (crc : Bytes → ℕ) (epoch : ℕ) (hw newest offset : ℤ) (reads : List Read)
    (sent : List Bytes) : Type 0 where
  pub buffer : Bytes
  pub batch : IsBatch newest offset (reset epoch) buffer reads
  pub retries : List Bytes
  pub first : sent ≡ flush buffer hw ∷ retries
  pub is_read :
      unmarshal_replication_response crc (flush buffer hw) ≡ ok (epoch, hw, bytes_of (batch.taken))

reset_small : (epoch : ℕ) → length (reset epoch) ≤ replication_max_size
unfolding reset
reset_small epoch = omega arith

first_of :
    (respond : Bytes → Bool) (epoch : ℕ) (hw : ℤ) (buffer : Bytes)
    → (retries : List Bytes) × (answer respond epoch hw (filled buffer) ≡ flush buffer hw ∷ retries)
unfolding answer
first_of respond epoch hw buffer = elim (Bool-cases (respond (flush buffer hw))) [
  | inl sent ↦ ([], if_hit (respond (flush buffer hw)) _ _ sent)
  | inr lost ↦ (send_hw epoch hw ∷ [], if_miss (respond (flush buffer hw)) _ _ lost)
]

-- When the reader returns the messages behind the follower's offset, with headers of 28 bytes and up
-- to the newest one, the first response has the leader's epoch, its high watermark and the longest run
-- of them that fits into 1 MiB, and the follower reads it so.
pub serve-Answers :
    (crc : Bytes → ℕ) (respond : Bytes → Bool) (epoch : ℕ) (hw newest offset : ℤ)
    (reads : List Read)
    → epoch < 2 ^ 64
    → IsInt64 hw
    → HasHeaders reads
    → Reaches newest offset reads
    → Answers crc epoch hw newest offset reads (serve respond epoch hw newest offset (some reads))
unfolding serve write reset
serve-Answers crc respond epoch hw newest offset reads fits signed k r =
    let b = fill-IsBatch newest offset (reset epoch) reads (reset_small epoch) k r in
    let first = first_of respond epoch hw b.0 in
    record {
      buffer = b.0;
      batch = b.2;
      retries = first.0;
      first = ap (answer respond epoch hw) b.1 ∙ first.1;
      is_read =
          ap (λ bs. unmarshal_replication_response crc (flush bs hw)) b.2.content
          ∙ (unmarshal-flush crc epoch hw [] (bytes_of b.2.taken) fits signed).0;
    }

fill_oversized :
    (newest offset : ℤ) (buffer : Bytes) (f : Found) (reads : List Read)
    → is_over f buffer ≡ true
    → fill newest offset buffer (found f ∷ reads) ≡ filled buffer
unfolding fill
fill_oversized newest offset buffer f reads over =
    elim (Bool-cases (goes_on newest offset buffer)) [
      | inl on ↦ if_hit (goes_on newest offset buffer) _ _ on ∙ if_hit (is_over f buffer) _ _ over
      | inr ends ↦ if_miss (goes_on newest offset buffer) _ _ ends
    ]

answer_empty :
    (crc : Bytes → ℕ) (respond : Bytes → Bool) (epoch : ℕ) (hw : ℤ)
    → epoch < 2 ^ 64
    → IsInt64 hw
    → All
        (λ bs. unmarshal_replication_response crc bs ≡ ok (epoch, hw, []))
        (answer respond epoch hw (filled (reset epoch)))
unfolding answer send_hw
answer_empty crc respond epoch hw fits signed =
    let read = (unmarshal-flush crc epoch hw [] [] fits signed).1 in
    elim (Bool-cases (respond (flush (reset epoch) hw))) [
      | inl sent ↦ rw sent (read, tt)
      | inr lost ↦ rw lost (read, (read, tt))
    ]

-- A message behind the follower's offset that does not fit into a response on its own, with its
-- headers, is never sent: whatever the reader returns after it, every response has no message.
pub serve_oversized :
    (crc : Bytes → ℕ) (respond : Bytes → Bool) (epoch : ℕ) (hw newest offset : ℤ) (f : Found)
    (reads : List Read)
    → epoch < 2 ^ 64
    → IsInt64 hw
    → is_over f (reset epoch) ≡ true
    → All
        (λ bs. unmarshal_replication_response crc bs ≡ ok (epoch, hw, []))
        (serve respond epoch hw newest offset (some (found f ∷ reads)))
unfolding serve
serve_oversized crc respond epoch hw newest offset f reads fits signed over =
    subst
      (λ b.
        All (λ bs. unmarshal_replication_response crc bs ≡ ok (epoch, hw, []))
          (answer respond epoch hw b))
      (sym (fill_oversized newest offset (reset epoch) f reads over))
      (answer_empty crc respond epoch hw fits signed)
