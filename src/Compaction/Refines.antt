-- ===== src/Compaction/Refines.antt =====
-- What a compaction of a whole log leaves.
use liftbridge.Common.{
  eqb_bytes-eq, eqb_bytes, ◌≡◌, refl, sym, ap, ◌∙◌, subst, inl, inr, ℕ, ℤ, pos, Bool, true, false,
  List, [], ◌∷◌, ◌++◌, append-nil, Option, none, some, arith, Option-cases, Bool-cases, keep, ◌&&◌,
  eqb_ℤ,
}
use liftbridge.Decimal.{Bytes}
use liftbridge.Segment.{Record, Segment}
use liftbridge.Segment.Write.{Rising}
use liftbridge.Epochs.{Disk, new_no_file}
use liftbridge.Log.Order.{
  view, view-append, view-Rising, Chain, Chain-append, Chain-append_left, Chain-append_right,
  chain_end,
}
use liftbridge.Compaction.{
  key_string, is_nil, load, scan_records, scan_keys, retains, clean_segments, compact,
}
use liftbridge.Compaction.Kept.{
  unplaced, contents, contents-append, clean_segments-AreCleaned, Chain-later,
}
use liftbridge.Compaction.Latest.{
  later, if_passes, last_where, last_where-append, last_where-keep, is_for, offset_of, load-scan,
}

abbrev unplaced_last : Option Record → Option Record
unplaced_last none = none
unplaced_last (some r) = some (unplaced r)

last_where-contents :
    (key : Bytes) (hw : ℤ) (rs : List Record)
    → last_where (is_for key hw) (contents rs) ≡ unplaced_last (last_where (is_for key hw) rs)
last_where-contents key hw [] = refl
last_where-contents key hw (r ∷ rs) =
    ap (λ o. later o (if_passes (is_for key hw) (unplaced r))) (last_where-contents key hw rs)
    ∙ elim (Option-cases (last_where (is_for key hw) rs)) [
      | inr (x, found) ↦ rw found refl
      | inl nothing ↦ rw nothing (elim (Bool-cases (is_for key hw r)) [
        | inl passes ↦ simp passes refl
        | inr fails ↦ simp fails refl
      ])
    ]

and_left : (a b : Bool) → (a && b) ≡ true → a ≡ true
and_left true b h = refl
and_left false b h = h

-- The last message for a key passes the test of the compaction.
last-retained :
    (key : Bytes) (hw lo : ℤ) (rs : List Record) (r : Record)
    → Rising lo rs
    → last_where (is_for key hw) rs ≡ some r
    → is_for key hw r ≡ true
    → retains (scan_records hw rs []) hw r ≡ true
unfolding retains load offset_of
last-retained key hw lo rs r h found passes =
    let same : eqb_bytes (key_string r.key) key ≡ true = and_left _ _ passes in
    let loaded : load key (scan_records hw rs []) ≡ some r.offset =
      load-scan key hw lo rs [] h tt ∙ ap (λ o. offset_of o none) found in
    let mine : load (key_string r.key) (scan_records hw rs []) ≡ some r.offset =
      subst (λ k. load k (scan_records hw rs []) ≡ some r.offset)
        (sym (eqb_bytes-eq (key_string r.key) key same)) loaded in
    let itself : eqb_ℤ r.offset r.offset ≡ true = ground arith in
    elim (Bool-cases (is_nil r.key)) [
      | inl nil_ ↦ simp nil_ refl
      | inr keyed ↦ simp (keyed, mine, itself) refl
    ]

last_where-passes :
    (q : Record → Bool) (rs : List Record) (r : Record) → last_where q rs ≡ some r → q r ≡ true
last_where-passes q [] r h = cc
last_where-passes q (x ∷ xs) r h = elim (Option-cases (last_where q xs)) [
  | inr (y, found) ↦ last_where-passes q xs r (found ∙ simp found at h)
  | inl nothing ↦ elim (Bool-cases (q x)) [
    | inl passes ↦
        let same : some x ≡ some r = simp (nothing, passes) at h in
        let e : x ≡ r = cc same in subst (λ y. q y ≡ true) e passes
    | inr fails ↦ let no : none ≡ some r = simp (nothing, fails) at h in cc no
  ]
]

kept-latest :
    (key : Bytes) (hw lo : ℤ) (xs ys : List Record)
    → Rising lo (xs ++ ys)
    → let keeps = retains (scan_records hw (xs ++ ys) []) hw in
      last_where (is_for key hw) (keep keeps xs ++ ys) ≡ last_where (is_for key hw) (xs ++ ys)
kept-latest key hw lo xs ys h =
    let q = is_for key hw in
    let keeps = retains (scan_records hw (xs ++ ys) []) hw in
    last_where-append q (keep keeps xs) ys
    ∙ elim (Option-cases (last_where q ys)) [
      | inr (x, found) ↦ rw found refl
      | inl nothing ↦ ap (later (last_where q ys)) (
          last_where-keep q keeps xs (λ r e.
            let whole : last_where q (xs ++ ys) ≡ some r =
              last_where-append q xs ys ∙ ap (λ o. later o (last_where q xs)) nothing ∙ e in
            last-retained key hw lo (xs ++ ys) r h whole (last_where-passes q (xs ++ ys) r whole)))
    ]
    ∙ sym (last_where-append q xs ys)

-- A log of these older segments and the last one, after its compaction. The messages that are kept
-- have new places in their files.
pub record IsCompacted (key : Bytes) (hw : ℤ) (older : List Segment) (last : Segment)
    (compacted : List Segment) : Type 0 where
  pub chain : Chain (pos 0) compacted
  pub records :
      contents (view compacted)
      ≡ contents
          (keep (retains (scan_keys hw (older ++ last ∷ [])) hw) (view older) ++ last.records)
  pub latest :
      last_where (is_for key hw) (contents (view compacted))
      ≡ last_where (is_for key hw) (contents (view (older ++ last ∷ [])))

module _ (disk : Disk) (hw : ℤ) (older : List Segment) (last : Segment) where
  -- A well-formed log is well-formed after its compaction. What is left of the older segments is the
  -- messages that pass the test of the compaction, in their order, and the last segment is as it
  -- was. For every key that is not empty, the last message up to the high watermark is the same.
  pub compact-IsCompacted :
      (b : ℕ) (bs : Bytes)
      → Chain (pos 0) (older ++ last ∷ [])
      → IsCompacted (b ∷ bs) hw older last (compact disk hw older last).0
  unfolding compact scan_keys
  compact-IsCompacted b bs h =
      let key : Bytes = b ∷ bs in
      let q = is_for key hw in
      let ss = older ++ last ∷ [] in
      let keeps = retains (scan_keys hw ss) hw in
      let c =
        clean_segments-AreCleaned disk keeps older new_no_file (pos 0)
          (Chain-append_left (pos 0) older (last ∷ []) h) in
      let cleaned = (clean_segments disk keeps older new_no_file).0 in
      let end = Chain-append_right (pos 0) older (last ∷ []) h in
      let whole : view ss ≡ view older ++ last.records =
        view-append older (last ∷ []) ∙ ap (λ xs. view older ++ xs) (append-nil last.records) in
      let records : contents (view (cleaned ++ last ∷ []))
          ≡ contents (keep keeps (view older) ++ last.records) =
        ap contents (view-append cleaned (last ∷ []))
        ∙ contents-append (view cleaned) (last.records ++ [])
        ∙ ap (λ xs. xs ++ contents (last.records ++ [])) c.records
        ∙ ap (λ xs. contents (keep keeps (view older)) ++ contents xs) (append-nil last.records)
        ∙ sym (contents-append (keep keeps (view older)) last.records) in
      let kept : last_where q (keep keeps (view older) ++ last.records) ≡ last_where q (view ss) =
        subst
          (λ rs.
            last_where q (keep (retains (scan_records hw rs []) hw) (view older) ++ last.records)
            ≡ last_where q rs)
          (sym whole)
          (kept-latest key hw (pos 0) (view older) last.records
            (subst (Rising (pos 0)) whole (view-Rising (pos 0) ss h))) in
      record {
        chain = Chain-append (pos 0) cleaned (last ∷ []) c.chain (
            Chain-later disk keeps (chain_end (pos 0) cleaned) (chain_end (pos 0) older) (last ∷ [])
              c.bounded end);
        records = records;
        latest =
            ap (last_where q) records
            ∙ last_where-contents key hw (keep keeps (view older) ++ last.records)
            ∙ ap unplaced_last kept
            ∙ sym (last_where-contents key hw (view ss));
      }
