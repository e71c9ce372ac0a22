-- ===== src/Log/Truncate.antt =====
-- What `Truncate` leaves of a well-formed log.
use liftbridge.Common.{
  ◌≡◌, ◌≢◌, refl, sym, ap, ◌∙◌, subst, inl, inr, ℤ, pos, ◌≤ℤ◌, eqb_ℤ, ltb_ℤ, Bool, true, false,
  ◌&&◌, not, List, [], ◌∷◌, ◌++◌, append-nil, none, some, arith, ◌==◌, Bool-cases, Option-cases,
  All, length, take-append, keep, get_elem?,
}
use liftbridge.Common.Search.{index_where, index_where-Splits, get_elem?-none-misses}
use liftbridge.Segment.{Segment, next_offset}
use liftbridge.Segment.Write.{IsValid}
use liftbridge.Epochs.{Cache, Disk, clear_latest}
use liftbridge.Log.{
  Log, segments, find_segment_index, truncated_segment, truncate_at, truncate_segments, restore,
  truncate, truncated_log, clear_epochs,
}
use liftbridge.Log.Order.{
  view, view-append, Chain, Chain-append, Chain-append_left, Chain-append_right, IsValidLog,
  segments-restore,
}
use liftbridge.Log.Cut.{
  is_before, keep_none, keep-append, keep_front, keep_back, truncated_segment_lem,
  find_segment_index-index_where,
}

-- What a truncation at the segment `s` leaves, where `front` stands before it.
module _ (offset lo : ℤ) (front : List Segment) (s : Segment) (back : List Segment) where
  abbrev whole_segments : List Segment
  whole_segments = front ++ s ∷ back

  view_cut :
      Chain lo whole_segments
      → All (λ t. ltb_ℤ offset (next_offset t) ≡ false) front
      → offset ≤ℤ next_offset s
      → keep (is_before offset) (view whole_segments)
        ≡ view front ++ keep (is_before offset) s.records
  view_cut h m hit =
      let mid = Chain-append_right lo front (s ∷ back) h in
      ap (keep (is_before offset)) (view-append front (s ∷ back))
      ∙ (keep-append (is_before offset) (view front) (s.records ++ view back)
          ∙ (ap (λ xs. xs ++ keep (is_before offset) (s.records ++ view back))
                (keep_front offset lo front (Chain-append_left lo front (s ∷ back) h) m)
              ∙ ap (◌++◌ (view front)) (
                  keep-append (is_before offset) s.records (view back)
                  ∙ (ap (◌++◌ (keep (is_before offset) s.records))
                        (keep_back offset (next_offset s) back mid.2 hit)
                      ∙ append-nil (keep (is_before offset) s.records)))))

  view_truncated :
      IsValid s
      → view (front ++ truncated_segment s offset ∷ [])
        ≡ view front ++ keep (is_before offset) s.records
  view_truncated v =
      view-append front (truncated_segment s offset ∷ [])
      ∙ ap (◌++◌ (view front))
          (append-nil (truncated_segment s offset).records ∙ (truncated_segment_lem s offset v).1)

  truncated-Chain : Chain lo whole_segments → Chain lo (front ++ truncated_segment s offset ∷ [])
  truncated-Chain h =
      let mid = Chain-append_right lo front (s ∷ back) h in
      let t = truncated_segment_lem s offset mid.1 in
      Chain-append lo front (truncated_segment s offset ∷ [])
        (Chain-append_left lo front (s ∷ back) h) (rw t.2 mid.0, t.0, tt)

  view_dropped :
      Chain lo whole_segments
      → eqb_ℤ s.base_offset offset ≡ true
      → view front ≡ view front ++ keep (is_before offset) s.records
  view_dropped h same =
      let mid = Chain-append_right lo front (s ∷ back) h in
      sym (append-nil (view front))
      ∙ ap (◌++◌ (view front))
          (sym (keep_none offset s.base_offset s.records mid.1.rising (ground (arith, same))))

-- What `Truncate` promises of the segments that it leaves of others.
pub record IsTruncated (offset lo : ℤ) (ss ss' : List Segment) : Type 0 where
  pub chain : Chain lo ss'
  pub records : view ss' ≡ keep (is_before offset) (view ss)
  pub not_nil : ss' ≢ []

append-not_nil : (xs : List Segment) (s : Segment) → xs ++ s ∷ [] ≢ []
append-not_nil [] s e = cc
append-not_nil (x ∷ xs) s e = cc

truncate_at-IsTruncated :
    (offset lo : ℤ) (front : List Segment) (s : Segment) (back : List Segment)
    → Chain lo (front ++ s ∷ back)
    → All (λ t. ltb_ℤ offset (next_offset t) ≡ false) front
    → ltb_ℤ offset (next_offset s) ≡ true
    → IsTruncated offset lo
        (front ++ s ∷ back)
        (truncate_at (front ++ s ∷ back) (length front) (some s) offset)
unfolding truncate_at
truncate_at-IsTruncated offset lo front s back h m hit =
    let mid = Chain-append_right lo front (s ∷ back) h in
    let le : offset ≤ℤ next_offset s = ground (arith, hit) in
    let cut = view_cut offset lo front s back h m le in
    elim (Bool-cases (eqb_ℤ s.base_offset offset && not (length front == 0))) [
      | inl drops ↦
          let same : eqb_ℤ s.base_offset offset ≡ true = ground (arith, drops) in
          let some_left : length front ≢ 0 = ground (arith, drops) in
          rw (drops, take-append front (s ∷ back))
            (record {
              chain = Chain-append_left lo front (s ∷ back) h;
              records = view_dropped offset lo front s back h same ∙ sym cut;
              not_nil = λ e. some_left (ap length e);
            })
      | inr rewrites ↦
          rw (rewrites, take-append front (s ∷ back))
            (record {
              chain = truncated-Chain offset lo front s back h;
              records = view_truncated offset lo front s back mid.1 ∙ sym cut;
              not_nil = append-not_nil front (truncated_segment s offset);
            })
    ]

truncate_segments-IsTruncated :
    (offset lo : ℤ) (ss : List Segment)
    → Chain lo ss
    → ss ≢ []
    → IsTruncated offset lo ss (truncate_segments ss offset)
unfolding truncate_segments truncate_at
truncate_segments-IsTruncated offset lo ss h ne =
    let p : Segment → Bool = λ s. ltb_ℤ offset (next_offset s) in
    rw (find_segment_index-index_where offset lo ss h)
      (elim (Option-cases (get_elem? ss (index_where p ss))) [
        | inl beyond ↦
            rw (beyond, truncate_at)
              (record {
                chain = h;
                records = sym (keep_front offset lo ss h (get_elem?-none-misses p ss beyond));
                not_nil = ne;
              })
        | inr (s, here) ↦
            let cut = index_where-Splits p ss s here in
            rw (here, cut.at)
              (subst
                (λ xs. IsTruncated offset lo xs (truncate_at xs (length cut.front) (some s) offset))
                (sym cut.whole)
                (truncate_at-IsTruncated offset lo cut.front s cut.back
                  (subst (Chain lo) cut.whole h) cut.misses cut.hits))
      ])

truncate_segments_beyond :
    (ss : List Segment) (offset : ℤ)
    → get_elem? ss (find_segment_index ss offset) ≡ none
    → truncate_segments ss offset ≡ ss
unfolding truncate_segments truncate_at
truncate_segments_beyond ss offset beyond = rw beyond refl

segments-restored :
    (l : Log) (c : Cache) (ss : List Segment)
    → ss ≢ []
    → segments (record (restore l ss) { epochs = c }) ≡ ss
segments-restored l c [] ne = absurd (ne refl)
segments-restored l c (s ∷ ss) ne = segments-restore l s ss

restore-hw : (l : Log) (ss : List Segment) → (restore l ss).hw ≡ l.hw
restore-hw l [] = refl
restore-hw l (s ∷ ss) = refl

-- A truncation of a well-formed log, wherever the offset lies: the records that are left are those
-- below the offset, all of them and in their order; the segments follow one another still; the
-- high watermark stays. Whether the epochs could be written makes no difference.
pub truncate-IsTruncated :
    (disk : Disk) (l : Log) (offset : ℤ)
    → IsValidLog l
    → let l' = (truncate disk l offset).0 in
      IsTruncated offset (pos 0) (segments l) (segments l') × (l'.hw ≡ l.hw)
unfolding truncate truncated_log clear_epochs
truncate-IsTruncated disk l offset v =
    let ss = segments l in
    let left =
      truncate_segments-IsTruncated offset (pos 0) ss v.chain (append-not_nil l.older l.active) in
    elim (Option-cases (get_elem? ss (find_segment_index ss offset))) [
      | inl beyond ↦
          rw (beyond, truncated_log)
            (let same = truncate_segments_beyond ss offset beyond in
              (subst (IsTruncated offset (pos 0) ss) same left, refl))
      | inr (s, here) ↦
          rw (here, truncated_log)
            (
              subst (IsTruncated offset (pos 0) ss)
                  (sym (
                    segments-restored l (clear_latest disk l.epochs offset).0
                      (truncate_segments ss offset) left.not_nil))
                  left,
              restore-hw l (truncate_segments ss offset),
            )
    ]
