-- ===== src/Common/Search.antt =====
-- Go's `sort.Search`: the binary search that the log uses for segments, index entries and epochs.
use Prim.Native.Nat.{ℕ, zero, suc, ◌+◌, ◌-◌, ◌/◌, ◌≤◌, ◌<◌}
use mathlib.Core.Path.{◌≡◌, refl, sym, ap, ◌∙◌}
use mathlib.Core.Bool.{Bool, true, false}
use mathlib.Core.List.{List, [], ◌∷◌, ◌++◌}
use mathlib.Core.Option.{Option, none, some}
use mathlib.Core.Logic.{inl, inr}
use native.Mathlib.Omega.{arith}
use liftbridge.Common.Tests.{ltb, ltb→lt, Bool-cases}
use liftbridge.Common.Lists.{length, get_elem?, All, keep, keep_hit, keep_miss, drop}

-- `for i < j { h := (i + j) / 2; if !f(h) { i = h + 1 } else { j = h } }`, on fuel.
unfoldable pub search_loop : ℕ → (ℕ → Bool) → ℕ → ℕ → ℕ
search_loop zero f i j = i
search_loop (suc k) f i j = elim (ltb i j) [
  | false ↦ i
  | true ↦ elim (f ((i + j) / 2)) [
    | true ↦ search_loop k f i ((i + j) / 2)
    | false ↦ search_loop k f ((i + j) / 2 + 1) j
  ]
]

-- The range shrinks in each round, so `n` rounds are enough.
unfoldable pub search : ℕ → (ℕ → Bool) → ℕ
unfolding search_loop
search n f = search_loop n f 0 n

-- What the search promises of its result `r`, for any predicate.
pub record Found (n : ℕ) (f : ℕ → Bool) (r : ℕ) : Type 0 where
  pub bounded : r ≤ n
  pub hit : r < n → f r ≡ true
  pub miss : (m : ℕ) → r ≡ suc m → f m ≡ false

search_loop-Found :
    (k n : ℕ) (f : ℕ → Bool) (i j : ℕ)
    → j - i ≤ k
    → i ≤ j
    → j ≤ n
    → (j < n → f j ≡ true)
    → ((m : ℕ) → i ≡ suc m → f m ≡ false)
    → Found n f (search_loop k f i j)
unfolding search_loop
search_loop-Found zero n f i j small le top high low =
    let e : j ≡ i = omega arith in
    record { bounded = omega arith; hit = λ h. rw (← e) (high (omega arith)); miss = low }
search_loop-Found (suc k) n f i j small le top high low = elim (Bool-cases (ltb i j)) [
  | inr done ↦
      let e : j ≡ i = ground arith in
      rw (done, search_loop)
        (record { bounded = omega arith; hit = λ h. rw (← e) (high (omega arith)); miss = low })
  | inl more ↦
      let lt : i < j = ltb→lt i j more in
      rw (more, search_loop)
        (elim (Bool-cases (f ((i + j) / 2))) [
          | inl at ↦ rw at (
              search_loop-Found k n f i ((i + j) / 2) (omega arith) (omega arith) (omega arith)
                (λ _. at) low)
          | inr over ↦ rw over (
              search_loop-Found k n f ((i + j) / 2 + 1) j (omega arith) (omega arith) top high
                (λ m e. let e' : m ≡ (i + j) / 2 = omega arith in rw e' over))
        ])
]

-- `search` finds a place where the predicate turns true, whatever the predicate is.
pub search-Found : (n : ℕ) (f : ℕ → Bool) → Found n f (search n f)
unfolding search
search-Found n f =
    search_loop-Found n n f 0 n (omega arith) (omega arith) (omega arith)
      (λ h. absurd (omega arith)) (λ m e. absurd (omega arith))

module _ {ℓ} {A : Type ℓ} (p : A → Bool) where
  -- The predicate of a search over a slice, at an index.
  abbrev pub holds_at : List A → ℕ → Bool
  holds_at xs i = elim (get_elem? xs i) [ none ↦ false | some x ↦ p x ]

  -- The search from the front that the binary search stands for.
  unfoldable pub index_where : List A → ℕ
  index_where [] = 0
  index_where (x ∷ xs) = elim (p x) [ true ↦ 0 | false ↦ suc (index_where xs) ]

  abbrev pub first_where : List A → Option A
  first_where [] = none
  first_where (x ∷ xs) = elim (p x) [ true ↦ some x | false ↦ first_where xs ]

  -- Once the predicate holds it goes on holding.
  abbrev pub IsUpward : List A → Type ℓ
  IsUpward [] = Unit
  IsUpward (x ∷ xs) = (p x ≡ true → All (λ y. p y ≡ true) xs) × IsUpward xs

  holds_at-All :
      (xs : List A) (i : ℕ) → All (λ y. p y ≡ true) xs → i < length xs → holds_at xs i ≡ true
  holds_at-All [] i h lt = absurd (omega arith)
  holds_at-All (x ∷ xs) zero h lt = h.0
  holds_at-All (x ∷ xs) (suc i) h lt = holds_at-All xs i h.1 (omega arith)

  index_where-Found :
      (xs : List A) (r : ℕ) → IsUpward xs → Found (length xs) (holds_at xs) r → r ≡ index_where xs
  unfolding index_where
  index_where-Found [] r up f = omega (arith, f.bounded)
  index_where-Found (x ∷ xs) zero up f = rw (f.hit (omega arith), index_where)
  index_where-Found (x ∷ xs) (suc r) up f = elim (Bool-cases (p x)) [
    | inl first ↦
        cc (f.miss r refl, holds_at-All (x ∷ xs) r (first, up.0 first) (omega (arith, f.bounded)))
    | inr later ↦
        rw (later, index_where)
          (ap suc (
            index_where-Found xs r up.1 (record {
              bounded = omega (arith, f.bounded);
              hit = λ h. f.hit (omega arith);
              miss = λ m e. f.miss (suc m) (ap suc e);
            })))
  ]

  -- The binary search agrees with the search from the front on every list that it may be used on.
  pub search-index_where :
      (xs : List A) → IsUpward xs → search (length xs) (holds_at xs) ≡ index_where xs
  search-index_where xs up = index_where-Found xs _ up (search-Found _ _)

  keep-All : (xs : List A) → All (λ y. p y ≡ true) xs → keep p xs ≡ xs
  keep-All [] h = refl
  keep-All (x ∷ xs) h = keep_hit p x xs h.0 ∙ ap (◌∷◌ x) (keep-All xs h.1)

  -- What a search leaves to its right is what satisfies the predicate.
  pub drop-index_where : (xs : List A) → IsUpward xs → drop (index_where xs) xs ≡ keep p xs
  unfolding index_where
  drop-index_where [] up = refl
  drop-index_where (x ∷ xs) up = elim (Bool-cases (p x)) [
    | inl first ↦ rw (first, index_where) (sym (keep-All (x ∷ xs) (first, up.0 first)))
    | inr later ↦ rw (later, index_where) (drop-index_where xs up.1 ∙ sym (keep_miss p x xs later))
  ]

  -- And what stands at its result is the first such element.
  pub get_elem?-index_where : (xs : List A) → get_elem? xs (index_where xs) ≡ first_where xs
  unfolding index_where
  get_elem?-index_where [] = refl
  get_elem?-index_where (x ∷ xs) = elim (Bool-cases (p x)) [
    | inl first ↦ rw (first, index_where) (rw (first, first_where))
    | inr later ↦ rw (later, index_where) (get_elem?-index_where xs ∙ (rw (later, first_where)))
  ]

  -- Where the search from the front ends inside the list, it splits the list there.
  pub record Splits (xs : List A) (x : A) : Type ℓ where
    pub front : List A
    pub back : List A
    pub whole : xs ≡ front ++ x ∷ back
    pub at : index_where xs ≡ length front
    pub misses : All (λ y. p y ≡ false) front
    pub hits : p x ≡ true

  pub index_where-Splits :
      (xs : List A) (x : A) → get_elem? xs (index_where xs) ≡ some x → Splits xs x
  unfolding index_where
  index_where-Splits [] x h = cc
  index_where-Splits (y ∷ xs) x h = elim (Bool-cases (p y)) [
    | inl first ↦
        let same : some y ≡ some x = rw (first, index_where) at h in
        let e : y ≡ x = cc in
        record {
          front = [];
          back = xs;
          whole = rw e;
          at = rw (first, index_where);
          misses = tt;
          hits = rw (← e) first;
        }
    | inr later ↦
        let r = index_where-Splits xs x (rw (later, index_where) at h) in
        record {
          front = y ∷ r.front;
          back = r.back;
          whole = ap (◌∷◌ y) r.whole;
          at = rw (later, index_where) (ap suc r.at);
          misses = (later, r.misses);
          hits = r.hits;
        }
  ]

  pub get_elem?-none-misses :
      (xs : List A) → get_elem? xs (index_where xs) ≡ none → All (λ y. p y ≡ false) xs
  unfolding index_where
  get_elem?-none-misses [] h = tt
  get_elem?-none-misses (y ∷ xs) h = elim (Bool-cases (p y)) [
    | inl first ↦ let bad : some y ≡ none = rw (first, index_where) at h in cc
    | inr later ↦ (later, get_elem?-none-misses xs (rw (later, index_where) at h))
  ]
