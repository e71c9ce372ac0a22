-- ===== src/Replication/Sequence.antt =====
-- The messages behind an offset of a log, and the records that they become.
use liftbridge.Common.{
  ℕ, ◌+◌, ◌≡◌, refl, sym, ap, ◌∙◌, inr, ℤ, pos, ◌+ℤ◌, +ℤ_parts, eq_of_parts, ◌≤ℤ◌, List, [], ◌∷◌,
  ◌++◌, append_assoc, map, arith, length,
}
use liftbridge.Segment.{Record}
use liftbridge.Segment.Write.{end_of}
use liftbridge.Log.{entries_for_message_set}
use liftbridge.MessageSet.{header_len, key_of}
use liftbridge.Replicator.Fill.{Reaches}
use liftbridge.Replication.Stored.{Stored, reads_of, entries_of, AreStored}

abbrev pub last_stored : ℤ → List Stored → ℤ
last_stored o [] = o
last_stored o (s ∷ ss) = last_stored s.offset ss

-- A record wherever it lies in its file.
abbrev pub bare : Record → Record
bare r = record r { position = 0 }

abbrev bare_of : Stored → Record
bare_of s = record {
  offset = s.offset;
  timestamp = s.message.timestamp;
  leader_epoch = s.message.leader_epoch;
  position = 0;
  size = header_len + length s.message.content;
  key = key_of s.message.content;
}

abbrev pub bare_entries : List Stored → List Record
bare_entries ss = map bare (entries_of 0 ss)

pub last_stored-append :
    (o : ℤ) (ss ts : List Stored) → last_stored o (ss ++ ts) ≡ last_stored (last_stored o ss) ts
last_stored-append o [] ts = refl
last_stored-append o (s ∷ ss) ts = last_stored-append s.offset ss ts

pub last_stored-le : (o : ℤ) (ss : List Stored) → AreStored (o +ℤ pos 1) ss → o ≤ℤ last_stored o ss
last_stored-le o [] h = omega arith
last_stored-le o (s ∷ ss) h = omega (arith, h.0, +ℤ_parts o (pos 1), last_stored-le s.offset ss h.3)

pub last_stored-Reaches : (o : ℤ) (ss : List Stored) → Reaches (last_stored o ss) o (reads_of ss)
last_stored-Reaches o [] = omega arith
last_stored-Reaches o (s ∷ ss) = inr (last_stored-Reaches s.offset ss)

pub AreStored-append_right :
    (o : ℤ) (ss ts : List Stored)
    → AreStored (o +ℤ pos 1) (ss ++ ts)
    → AreStored (last_stored o ss +ℤ pos 1) ts
AreStored-append_right o [] ts h = h
AreStored-append_right o (s ∷ ss) ts h = AreStored-append_right s.offset ss ts h.3

pub end_of-entries :
    (o : ℤ) (base : ℕ) (ss : List Stored)
    → end_of (o +ℤ pos 1) (entries_of base ss) ≡ last_stored o ss +ℤ pos 1
unfolding entries_of
end_of-entries o base [] = refl
end_of-entries o base (s ∷ ss) = end_of-entries s.offset _ ss

pub cancel_one : (a b : ℤ) → a +ℤ pos 1 ≡ b +ℤ pos 1 → a ≡ b
cancel_one a b h =
    let left = rw h at (+ℤ_parts a (pos 1)) in
    eq_of_parts a b (omega (arith, left, +ℤ_parts b (pos 1)))

pub map-append : (xs ys : List Record) → map bare (xs ++ ys) ≡ map bare xs ++ map bare ys
map-append [] ys = refl
map-append (x ∷ xs) ys = ap (λ rs. bare x ∷ rs) (map-append xs ys)

pub bare-entries_for_message_set :
    (base : ℕ) (rs : List Record) → map bare (entries_for_message_set base rs) ≡ map bare rs
unfolding entries_for_message_set
bare-entries_for_message_set base [] = refl
bare-entries_for_message_set base (r ∷ rs) =
    ap (λ xs. bare r ∷ xs) (bare-entries_for_message_set (base + r.size) rs)

bare-entries_of :
    (a b : ℕ) (ss : List Stored) → map bare (entries_of a ss) ≡ map bare (entries_of b ss)
unfolding entries_of
bare-entries_of a b [] = refl
bare-entries_of a b (s ∷ ss) =
    ap (λ xs. bare_of s ∷ xs)
      (bare-entries_of (a + (header_len + length s.message.content))
        (b + (header_len + length s.message.content)) ss)

bare_entries-append :
    (a : ℕ) (ss ts : List Stored)
    → map bare (entries_of a (ss ++ ts)) ≡ map bare (entries_of a ss) ++ bare_entries ts
unfolding entries_of
bare_entries-append a [] ts = bare-entries_of a 0 ts
bare_entries-append a (s ∷ ss) ts =
    ap (λ xs. bare_of s ∷ xs)
      (bare_entries-append (a + (header_len + length s.message.content)) ss ts)

pub join_records :
    (old middle new : List Record) (s : Stored) (ss more back : List Stored)
    → ss ≡ more ++ back
    → map bare middle ≡ map bare old ++ bare_entries (s ∷ more)
    → map bare new ≡ map bare middle ++ bare_entries back
    → map bare new ≡ map bare old ++ bare_entries (s ∷ ss)
join_records old middle new s ss more back whole first later =
    later
    ∙ ap (λ rs. rs ++ bare_entries back) first
    ∙ append_assoc (map bare old) (bare_entries (s ∷ more)) (bare_entries back)
    ∙ ap (λ rs. map bare old ++ rs)
        (sym (bare_entries-append 0 (s ∷ more) back) ∙ ap (λ xs. bare_entries (s ∷ xs)) (sym whole))
