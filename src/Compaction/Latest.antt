-- ===== src/Compaction/Latest.antt =====
-- The map from keys to their last messages, which a compaction leaves as it was.
use liftbridge.Common.{
  eqb_bytes-eq, eqb_bytes_refl, eqb_bytes, ◌≡◌, refl, sym, ap, ◌∙◌, subst, inl, inr, ℤ, pos, ◌+ℤ◌,
  ◌≤ℤ◌, ◌<ℤ◌, +ℤ_parts, leb_ℤ, ltb_ℤ, lt→ltb_ℤ, lt→not_leb_ℤ, Bool, true, false, ◌&&◌, List, [],
  ◌∷◌, ◌++◌, Option, none, some, arith, Bool-cases, Option-cases, if◌then◌else◌, if_hit, if_miss,
  keep, keep_hit, keep_miss,
}
use liftbridge.Decimal.{Bytes}
use liftbridge.Segment.{Record}
use liftbridge.Segment.Write.{Rising}
use liftbridge.Compaction.{key_string, KeyOffsets, load, store, scan_records}

-- The later of an offset and one that is stored.
newer : ℤ → Option ℤ → ℤ
newer o none = o
newer o (some p) = if ltb_ℤ p o then o else p

load-store :
    (key key' : Bytes) (o : ℤ) (ks : KeyOffsets)
    → load key (store key' o ks)
      ≡ (if eqb_bytes key' key then some (newer o (load key ks)) else load key ks)
unfolding load store newer
load-store key key' o [] = refl
load-store key key' o (k ∷ ks) = elim (Bool-cases (eqb_bytes k.key key')) [
  | inl mine ↦
      let same = eqb_bytes-eq k.key key' mine in
      elim (Bool-cases (eqb_bytes k.key key)) [
        | inl hit ↦
            let hit' = subst (λ x. eqb_bytes x key ≡ true) same hit in simp (mine, hit, hit') refl
        | inr miss ↦
            let miss' = subst (λ x. eqb_bytes x key ≡ false) same miss in
            simp (mine, miss, miss') refl
      ]
  | inr other ↦ elim (Bool-cases (eqb_bytes k.key key)) [
    | inl hit ↦ elim (Bool-cases (eqb_bytes key' key)) [
      | inl same ↦
          let e = eqb_bytes-eq k.key key hit in
          let e' = eqb_bytes-eq key' key same in
          let clash : eqb_bytes k.key key' ≡ true =
            subst (λ x. eqb_bytes x key' ≡ true) (e' ∙ sym e) (eqb_bytes_refl key') in
          cc (clash, other)
      | inr differ ↦ simp (other, hit, differ) refl
    ]
    | inr miss ↦ simp (other, miss) (load-store key key' o ks)
  ]
]

abbrev pub later : Option Record → Option Record → Option Record
later none o = o
later (some x) o = some x

abbrev pub if_passes : (Record → Bool) → Record → Option Record
if_passes q r = if q r then some r else none

-- The last element that passes a test.
abbrev pub last_where : (Record → Bool) → List Record → Option Record
last_where q [] = none
last_where q (r ∷ rs) = later (last_where q rs) (if_passes q r)

later-none : (o : Option Record) → later o none ≡ o
later-none none = refl
later-none (some x) = refl

later_assoc : (a b c : Option Record) → later (later a b) c ≡ later a (later b c)
later_assoc none b c = refl
later_assoc (some x) b c = refl

pub last_where-append :
    (q : Record → Bool) (xs ys : List Record)
    → last_where q (xs ++ ys) ≡ later (last_where q ys) (last_where q xs)
last_where-append q [] [] = refl
last_where-append q [] (y ∷ ys) = sym (later-none (later (last_where q ys) (if_passes q y)))
last_where-append q (x ∷ xs) ys =
    ap (λ o. later o (if_passes q x)) (last_where-append q xs ys)
    ∙ later_assoc (last_where q ys) (last_where q xs) (if_passes q x)

-- Nothing is lost where the last one that passes stays.
pub last_where-keep :
    (q keeps : Record → Bool) (rs : List Record)
    → ((r : Record) → last_where q rs ≡ some r → keeps r ≡ true)
    → last_where q (keep keeps rs) ≡ last_where q rs
last_where-keep q keeps [] h = refl
last_where-keep q keeps (r ∷ rs) h =
    let rest : last_where q (keep keeps rs) ≡ last_where q rs =
      last_where-keep q keeps rs (λ x e. h x (ap (λ o. later o (if_passes q r)) e)) in
    elim (Bool-cases (keeps r)) [
      | inl kept ↦ rw (keep_hit keeps r rs kept) (ap (λ o. later o (if_passes q r)) rest)
      | inr dropped ↦ rw (keep_miss keeps r rs dropped) (
          rest ∙ elim (Option-cases (last_where q rs)) [
            | inr (x, found) ↦ rw found refl
            | inl nothing ↦ elim (Bool-cases (q r)) [
              | inl passes ↦
                  let last : last_where q (r ∷ rs) ≡ some r = simp (nothing, passes) refl in
                  cc (h r last, dropped)
              | inr fails ↦ simp (nothing, fails) refl
            ]
          ])
    ]

-- The messages for a key up to the high watermark.
abbrev pub is_for : Bytes → ℤ → Record → Bool
is_for key hw r = eqb_bytes (key_string r.key) key && leb_ℤ r.offset hw

none_above :
    (key : Bytes) (hw lo : ℤ) (rs : List Record)
    → Rising lo rs
    → hw <ℤ lo
    → last_where (is_for key hw) rs ≡ none
none_above key hw lo [] h lt = refl
none_above key hw lo (r ∷ rs) h lt =
    let above : leb_ℤ r.offset hw ≡ false = lt→not_leb_ℤ r.offset hw (omega (arith, h.0, lt)) in
    let rest =
      none_above key hw (r.offset +ℤ pos 1) rs h.1
        (omega (arith, h.0, lt, +ℤ_parts r.offset (pos 1))) in
    rw rest (elim (Bool-cases (eqb_bytes (key_string r.key) key)) [
      | inl same ↦ simp (same, above) refl
      | inr other ↦ simp other refl
    ])

unfoldable pub offset_of : Option Record → Option ℤ → Option ℤ
offset_of none o = o
offset_of (some r) o = some r.offset

abbrev pub IsBelow : ℤ → Option ℤ → Type 0
IsBelow lo none = Unit {0}
IsBelow lo (some o) = o <ℤ lo

newer_below : (o lo : ℤ) (p : Option ℤ) → lo ≤ℤ o → IsBelow lo p → newer o p ≡ o
unfolding newer
newer_below o lo none h b = refl
newer_below o lo (some p) h b =
    let e : ltb_ℤ p o ≡ true = lt→ltb_ℤ p o (omega (arith, h, b)) in simp e refl

IsBelow-later : (lo lo' : ℤ) (o : Option ℤ) → lo ≤ℤ lo' → IsBelow lo o → IsBelow lo' o
IsBelow-later lo lo' none h b = tt
IsBelow-later lo lo' (some o) h b = omega (arith, h, b)

offset_of-later :
    (a : Option Record) (r : Record) (o : Option ℤ)
    → offset_of (later a (some r)) o ≡ offset_of a (some r.offset)
unfolding offset_of
offset_of-later none r o = refl
offset_of-later (some x) r o = refl

pub load-scan :
    (key : Bytes) (hw lo : ℤ) (rs : List Record) (ks : KeyOffsets)
    → Rising lo rs
    → IsBelow lo (load key ks)
    → load key (scan_records hw rs ks) ≡ offset_of (last_where (is_for key hw) rs) (load key ks)
unfolding scan_records offset_of
load-scan key hw lo [] ks h b = refl
load-scan key hw lo (r ∷ rs) ks h b = elim (Bool-cases (ltb_ℤ hw r.offset)) [
  | inl beyond ↦
      let from : Rising r.offset (r ∷ rs) = (omega arith, h.1) in
      let nothing = none_above key hw r.offset (r ∷ rs) from (ground (arith, beyond)) in
      simp beyond (sym (ap (λ o. offset_of o (load key ks)) nothing))
  | inr within ↦
      let ks' = store (key_string r.key) r.offset ks in
      let reached : leb_ℤ r.offset hw ≡ true = ground (arith, within) in
      let rest : IsBelow (r.offset +ℤ pos 1) (load key ks')
          → load key (scan_records hw rs ks')
            ≡ offset_of (last_where (is_for key hw) rs) (load key ks') =
        load-scan key hw (r.offset +ℤ pos 1) rs ks' h.1 in
      elim (Bool-cases (eqb_bytes (key_string r.key) key)) [
        | inl same ↦
            let stored : load key ks' ≡ some r.offset =
              load-store key (key_string r.key) r.offset ks
              ∙ if_hit (eqb_bytes (key_string r.key) key) _ _ same
              ∙ ap some (newer_below r.offset lo (load key ks) h.0 b) in
            let below : IsBelow (r.offset +ℤ pos 1) (load key ks') =
              subst (IsBelow (r.offset +ℤ pos 1)) (sym stored)
                (omega (arith, +ℤ_parts r.offset (pos 1))) in
            let passes : if_passes (is_for key hw) r ≡ some r = simp (same, reached) refl in
            simp within (
              rest below
              ∙ ap (offset_of (last_where (is_for key hw) rs)) stored
              ∙ sym (offset_of-later (last_where (is_for key hw) rs) r (load key ks))
              ∙ ap (λ o. offset_of (later (last_where (is_for key hw) rs) o) (load key ks))
                  (sym passes))
        | inr other ↦
            let stored : load key ks' ≡ load key ks =
              load-store key (key_string r.key) r.offset ks
              ∙ if_miss (eqb_bytes (key_string r.key) key) _ _ other in
            let below : IsBelow (r.offset +ℤ pos 1) (load key ks') =
              subst (IsBelow (r.offset +ℤ pos 1)) (sym stored) (
                IsBelow-later lo (r.offset +ℤ pos 1) (load key ks)
                  (omega (arith, h.0, +ℤ_parts r.offset (pos 1))) b) in
            let fails : if_passes (is_for key hw) r ≡ none = simp other refl in
            simp within (
              rest below
              ∙ ap (offset_of (last_where (is_for key hw) rs)) stored
              ∙ ap (λ o. offset_of o (load key ks))
                  (sym (later-none (last_where (is_for key hw) rs)))
              ∙ ap (λ o. offset_of (later (last_where (is_for key hw) rs) o) (load key ks))
                  (sym fails))
      ]
]
