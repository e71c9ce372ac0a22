-- ===== src/Epochs/Checkpoint.antt =====
-- `readLeaderEpochOffsets`. The words of the file are those between ASCII white space.
pub mod RoundTrip
use liftbridge.Common.{
  ℕ, zero, suc, ◌+◌, ◌-◌, ◌^◌, ◌≤◌, ◌<◌, ◌≡◌, ◌≢◌, refl, sym, ap, ◌∙◌, inl, inr, ℤ, pos, negsuc,
  ◌≤ℤ◌, ◌<ℤ◌, Bool, true, false, ◌||◌, ◌&&◌, List, [], ◌∷◌, ◌++◌, append-nil, append_assoc, Option,
  none, some, arith, ltb, leb, ltb_ℤ, eqb_ℤ, ◌==◌, if◌then◌else◌, All, All-append, length,
  Bool-cases,
}
use liftbridge.Decimal.{Bytes, format_uint, format_int, parse_int, int64_bound}
use liftbridge.Decimal.RoundTrip.{IsNumeral, format_uint-IsNumeral, IsDigit, parse_int-format_int}
use liftbridge.Epochs.{EpochOffset, checkpoint, entry_lines}
use liftbridge.Epochs.Order.{IsOrderedList, Above}

pub data ReadError : Type 0 where
  missing_version invalid_version missing_count invalid_count : ReadError
  unknown_version : ℤ → ReadError
  invalid_epoch missing_start invalid_start : ReadError
  duplicate_epoch : ℕ → ReadError
  wrong_count : ℤ → ℕ → ReadError

pub data Read {ℓ} (A : Type ℓ) : Type ℓ where
  ok : A → Read A
  err : ReadError → Read A

infixl 5 ◌>>=◌
abbrev ◌>>=◌ {ℓ κ} : {A : Type ℓ} {B : Type κ} → Read A → (A → Read B) → Read B
ok a >>= f = f a
err e >>= f = err e

abbrev or_err {ℓ} : {A : Type ℓ} → Option A → ReadError → Read A
or_err none e = err e
or_err (some a) e = ok a

is_space : ℕ → Bool
is_space c = c == b' ' || (leb 9 c && leb c 13)

abbrev put_word : Bytes → List Bytes → List Bytes
put_word [] ws = ws
put_word (c ∷ w) ws = (c ∷ w) ∷ ws

-- `bufio.ScanWords` over the bytes, with the word read so far.
words_from : Bytes → Bytes → List Bytes
words_from w [] = put_word w []
words_from w (c ∷ s) = elim (is_space c) [
  | true ↦ put_word w (words_from [] s)
  | false ↦ words_from (w ++ c ∷ []) s
]

unfoldable pub words : Bytes → List Bytes
unfolding words_from is_space
words s = words_from [] s

-- `uint64(n)` of an int64.
abbrev pub to_uint64 : ℤ → ℕ
to_uint64 (pos n) = n
to_uint64 (negsuc n) = 2 ^ 64 - 1 - n

-- Whether the map of the epochs read so far has this one.
has_epoch : ℕ → List EpochOffset → Bool
has_epoch epoch [] = false
has_epoch epoch (e ∷ es) = e.leader_epoch == epoch || has_epoch epoch es

-- The loop over the remaining words.
unfoldable pub read_entries : List Bytes → List EpochOffset → Read (List EpochOffset)
unfolding has_epoch
read_entries [] es = ok es
read_entries (w ∷ []) es = do _ ← or_err (parse_int w) invalid_epoch; err missing_start
read_entries (w ∷ v ∷ ws) es = do
  leader_epoch ← or_err (parse_int w) invalid_epoch
  start_offset ← or_err (parse_int v) invalid_start
  let epoch = to_uint64 leader_epoch
  let rest =
      read_entries ws (es ++ (record { leader_epoch = epoch; start_offset = start_offset }) ∷ [])
  if has_epoch epoch es then err (duplicate_epoch epoch) else rest

check_count : ℤ → List EpochOffset → Read (List EpochOffset)
check_count n es = if eqb_ℤ n (pos (length es)) then ok es else err (wrong_count n (length es))

read_count : List Bytes → Read (List EpochOffset)
unfolding check_count
read_count [] = err missing_count
read_count (w ∷ ws) = do
  n ← or_err (parse_int w) invalid_count
  es ← read_entries ws []
  check_count n es

read_version : List Bytes → Read (List EpochOffset)
unfolding read_count
read_version [] = err missing_version
read_version (w ∷ ws) = do
  version ← or_err (parse_int w) invalid_version
  if ltb_ℤ (pos 0) version then err (unknown_version version) else read_count ws

unfoldable pub read_leader_epoch_offsets : Bytes → Read (List EpochOffset)
unfolding read_version
read_leader_epoch_offsets file = read_version (words file)
