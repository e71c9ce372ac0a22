-- ===== src/Compaction/Kept.antt =====
-- What a compaction keeps: the messages that pass its test, in their order, in a well-formed log.
use liftbridge.Common.{
  ◌≡◌, refl, sym, ap, ◌∙◌, subst, inl, inr, ℤ, pos, minus_one, ◌+ℤ◌, ◌≤ℤ◌, ◌<ℤ◌, +ℤ_parts, eqb_ℤ,
  Bool, true, List, [], ◌∷◌, ◌++◌, map, append-nil, append_assoc, arith, Bool-cases, All, keep,
  keep_hit, keep_miss,
}
use liftbridge.Segment.{Record, Segment, next_offset, is_empty, written, emptied, replace}
use liftbridge.Segment.Write.{
  IsValid, Rising, Bounds, end_of, written-IsValid, next_offset-written, written_same,
  next_offset-end_of, reopen-IsValid, reopen_same,
}
use liftbridge.Epochs.{Cache, Disk}
use liftbridge.Log.Order.{view, view-append, Chain, Chain-append, chain_end, next_offset-le}
use liftbridge.Log.Cut.{keep-append, emptied-IsValid, emptied_same}
use liftbridge.Compaction.{note_epoch, clean_records, clean_segment, clean_segments}

-- A message without its place in the file.
abbrev pub unplaced : Record → Record
unplaced r = record r { position = 0 }

abbrev pub contents : List Record → List Record
contents rs = map unplaced rs

pub contents-append : (xs ys : List Record) → contents (xs ++ ys) ≡ contents xs ++ contents ys
contents-append [] ys = refl
contents-append (x ∷ xs) ys = ap (◌∷◌ (unplaced x)) (contents-append xs ys)

end_of-mono : (lo lo' : ℤ) (rs : List Record) → lo ≤ℤ lo' → end_of lo rs ≤ℤ end_of lo' rs
end_of-mono lo lo' [] h = h
end_of-mono lo lo' (r ∷ rs) h = omega arith

Rising-later : (lo lo' : ℤ) (rs : List Record) → lo ≤ℤ lo' → Rising lo' rs → Rising lo rs
Rising-later lo lo' [] h k = tt
Rising-later lo lo' (r ∷ rs) h k = (omega (arith, k.0), k.1)

record IsCleaned (keeps : Record → Bool) (rs : List Record) (t u : Segment) (end : ℤ) : Type 0 where
  valid : IsValid u
  records : contents u.records ≡ contents t.records ++ contents (keep keeps rs)
  base : u.base_offset ≡ t.base_offset
  bounded : next_offset u ≤ℤ end

empty-records : (s : Segment) → IsValid s → is_empty s ≡ true → s.records ≡ []
unfolding is_empty
empty-records s v h = go s.records v.rising v.bounds
  where
    go : (rs : List Record) → Rising s.base_offset rs → Bounds s rs → rs ≡ []
    go [] r b = refl
    go (x ∷ xs) r b =
        let at : eqb_ℤ x.offset minus_one ≡ true = subst (λ o. eqb_ℤ o minus_one ≡ true) b.0 h in
        let positive = v.base in absurd (ground (arith, at, r.0, positive))

chain_end-append :
    (lo : ℤ) (xs ys : List Segment) → chain_end lo (xs ++ ys) ≡ chain_end (chain_end lo xs) ys
chain_end-append lo [] ys = refl
chain_end-append lo (x ∷ xs) ys = chain_end-append (next_offset x) xs ys

module _ (disk : Disk) (keeps : Record → Bool) where
  clean_records-IsCleaned :
      (rs : List Record) (t : Segment) (c : Cache) (lo : ℤ)
      → IsValid t
      → next_offset t ≤ℤ lo
      → Rising lo rs
      → All (λ (r : Record). pos 0 <ℤ r.timestamp) rs
      → IsCleaned keeps rs t (clean_records disk keeps rs t c).0 (end_of lo rs)
  unfolding clean_records
  clean_records-IsCleaned [] t c lo v le h s = record {
    valid = v;
    records = sym (append-nil (contents t.records));
    base = refl;
    bounded = le;
  }
  clean_records-IsCleaned (r ∷ rs) t c lo v le h s = elim (Bool-cases (keeps r)) [
    | inl kept ↦
        let r' : Record = record r { position = t.position } in
        let rising : Rising (next_offset t) (r' ∷ []) = (omega (arith, le, h.0), tt) in
        let w = written-IsValid t r.size r' [] v rising (s.0, tt) in
        let same = written_same t r.size r' [] in
        let next : next_offset (written t r.size r' []) ≡ r.offset +ℤ pos 1 =
          next_offset-written t r.size r' [] v w in
        let rest =
          clean_records-IsCleaned rs (written t r.size r' []) (note_epoch disk c r)
            (r.offset +ℤ pos 1) w (subst (λ n. n ≤ℤ r.offset +ℤ pos 1) (sym next) (omega arith)) h.1
            s.1 in
        rw (kept, clean_records)
          (record {
            valid = rest.valid;
            records =
                rest.records
                ∙ ap (λ xs. contents xs ++ contents (keep keeps rs)) same.0
                ∙ ap (λ xs. xs ++ contents (keep keeps rs)) (contents-append t.records (r' ∷ []))
                ∙ append_assoc (contents t.records) (unplaced r ∷ []) (contents (keep keeps rs))
                ∙ ap (λ xs. contents t.records ++ contents xs) (sym (keep_hit keeps r rs kept));
            base = rest.base ∙ same.1;
            bounded = rest.bounded;
          })
    | inr dropped ↦
        let rest =
          clean_records-IsCleaned rs t c (r.offset +ℤ pos 1) v
            (omega (arith, le, h.0, +ℤ_parts r.offset (pos 1))) h.1 s.1 in
        rw (dropped, clean_records)
          (record {
            valid = rest.valid;
            records =
                rest.records
                ∙ ap (λ xs. contents t.records ++ contents xs) (sym (keep_miss keeps r rs dropped));
            base = rest.base;
            bounded = rest.bounded;
          })
  ]

  -- The segments that a sequence of segments becomes.
  pub record AreCleaned (lo : ℤ) (ss cleaned : List Segment) : Type 0 where
    pub chain : Chain lo cleaned
    pub records : contents (view cleaned) ≡ contents (keep keeps (view ss))
    pub bounded : chain_end lo cleaned ≤ℤ chain_end lo ss

  pub Chain-later : (lo lo' : ℤ) (ss : List Segment) → lo ≤ℤ lo' → Chain lo' ss → Chain lo ss
  Chain-later lo lo' [] h k = tt
  Chain-later lo lo' (s ∷ ss) h k = (omega (arith, h, k.0), k.1, k.2)

  chain_end-mono :
      (lo lo' : ℤ) (ss : List Segment) → lo ≤ℤ lo' → chain_end lo ss ≤ℤ chain_end lo' ss
  chain_end-mono lo lo' [] h = h
  chain_end-mono lo lo' (s ∷ ss) h = omega arith

  clean_segment-AreCleaned :
      (s : Segment) (c : Cache) (lo : ℤ)
      → lo ≤ℤ s.base_offset
      → IsValid s
      → AreCleaned lo (s ∷ []) (clean_segment disk keeps s c).0
  unfolding clean_segment replace
  clean_segment-AreCleaned s c lo le v =
      let u = (clean_records disk keeps s.records (emptied s) c).0 in
      let e = emptied_same s in
      let k =
        clean_records-IsCleaned s.records (emptied s) c s.base_offset (emptied-IsValid s v)
          (subst (λ n. n ≤ℤ s.base_offset) (sym e.2) (omega arith)) v.rising v.stamped in
      let kept : contents u.records ≡ contents (keep keeps s.records) =
        k.records ∙ ap (λ xs. contents xs ++ contents (keep keeps s.records)) e.0 in
      let all : keep keeps (s.records ++ []) ≡ keep keeps s.records =
        ap (keep keeps) (append-nil s.records) in
      elim (Bool-cases (is_empty u)) [
        | inl empty ↦
            let none_kept : [] ≡ contents (keep keeps s.records) =
              sym (ap contents (empty-records u k.valid empty)) ∙ kept in
            rw empty (record {
              chain = tt;
              records = none_kept ∙ ap contents (sym all);
              bounded = omega (arith, le, next_offset-le s v);
            })
        | inr some_ ↦
            let same = reopen_same u in
            let w = reopen-IsValid u k.valid in
            let next : next_offset (replace u s).0 ≡ next_offset u =
              next_offset-end_of (replace u s).0 w
              ∙ ap (λ b. end_of b (replace u s).0.records) same.1
              ∙ ap (end_of u.base_offset) same.0
              ∙ sym (next_offset-end_of u k.valid) in
            rw some_ (record {
              chain = (subst (λ b. lo ≤ℤ b) (sym (same.1 ∙ k.base ∙ e.1)) le, w, tt);
              records =
                  ap contents (append-nil _) ∙ ap contents same.0 ∙ kept ∙ ap contents (sym all);
              bounded =
                  subst (λ n. n ≤ℤ next_offset s) (sym next)
                    (subst (λ n. next_offset u ≤ℤ n) (sym (next_offset-end_of s v)) k.bounded);
            })
      ]

  pub clean_segments-AreCleaned :
      (ss : List Segment) (c : Cache) (lo : ℤ)
      → Chain lo ss
      → AreCleaned lo ss (clean_segments disk keeps ss c).0
  unfolding clean_segments
  clean_segments-AreCleaned [] c lo h = record { chain = tt; records = refl; bounded = omega arith }
  clean_segments-AreCleaned (s ∷ ss) c lo h =
      let first = clean_segment disk keeps s c in
      let one = clean_segment-AreCleaned s c lo h.0 h.1 in
      let rest = clean_segments-AreCleaned ss first.1 (next_offset s) h.2 in
      let tail = (clean_segments disk keeps ss first.1).0 in
      record {
        chain =
            Chain-append lo first.0 tail one.chain
              (Chain-later (chain_end lo first.0) (next_offset s) tail one.bounded rest.chain);
        records =
            ap contents (view-append first.0 tail)
            ∙ contents-append (view first.0) (view tail)
            ∙ ap (λ xs. xs ++ contents (view tail)) one.records
            ∙ ap (λ xs. contents (keep keeps (s.records ++ [])) ++ xs) rest.records
            ∙ ap (λ xs. contents (keep keeps xs) ++ contents (keep keeps (view ss)))
                (append-nil s.records)
            ∙ sym (contents-append (keep keeps s.records) (keep keeps (view ss)))
            ∙ ap contents (sym (keep-append keeps s.records (view ss)));
        bounded =
            subst (λ n. n ≤ℤ chain_end (next_offset s) ss) (sym (chain_end-append lo first.0 tail))
              (omega (
                arith,
                chain_end-mono (chain_end lo first.0) (next_offset s) tail one.bounded,
                rest.bounded,
              ));
      }
