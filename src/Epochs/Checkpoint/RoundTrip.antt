-- ===== src/Epochs/Checkpoint/RoundTrip.antt =====
-- Reading the checkpoint file that `flush` writes.
use liftbridge.Common.{
  ℕ, suc, ◌-◌, ◌<◌, ◌≡◌, refl, ap, ◌∙◌, ℤ, pos, negsuc, ◌≤ℤ◌, ◌<ℤ◌, true, false, List, [], ◌∷◌,
  ◌++◌, append-nil, append_assoc, none, some, arith, eqb_ℤ_iff, All, All-append, length,
}
use liftbridge.Decimal.{Bytes, format_uint, format_int, parse_int, int64_bound}
use liftbridge.Decimal.RoundTrip.{format_uint-IsNumeral, IsDigit, parse_int-format_int}
use liftbridge.Epochs.{EpochOffset, Cache, Disk, flush, checkpoint, entry_lines}
use liftbridge.Epochs.Order.{IsOrderedList, Above}
use liftbridge.Epochs.Checkpoint.{
  ok, is_space, put_word, words_from, words, has_epoch, read_entries, read_leader_epoch_offsets,
}

-- A word holds no white space.
abbrev IsWord : Bytes → Type 0
IsWord = All (λ c. is_space c ≡ false)

words_from-word :
    (w s : Bytes) (c : ℕ) (rest : Bytes)
    → IsWord s
    → is_space c ≡ true
    → words_from w (s ++ c ∷ rest) ≡ put_word (w ++ s) (words_from [] rest)
unfolding words_from
words_from-word w [] c rest h sp = rw (sp, words_from) (rw append-nil)
words_from-word w (d ∷ s) c rest h sp =
    rw (h.0, words_from) (words_from-word (w ++ d ∷ []) s c rest h.1 sp ∙ (rw append_assoc))

IsDigit-IsWord : (s : Bytes) → All IsDigit s → IsWord s
unfolding is_space
IsDigit-IsWord [] h = tt
IsDigit-IsWord (c ∷ s) h = (ground (arith, h.0.0, h.0.1), IsDigit-IsWord s h.1)

-- A printed number, as a word.
record IsNumberWord (s : Bytes) : Type 0 where
  head : ℕ
  rest : Bytes
  split : s ≡ head ∷ rest
  word : IsWord s

format_uint-IsNumberWord : (n : ℕ) → IsNumberWord (format_uint n)
format_uint-IsNumberWord n =
    let v = format_uint-IsNumeral n in
    record { head = v.head; rest = v.rest; split = v.split; word = IsDigit-IsWord _ v.all }

format_int-IsNumberWord : (n : ℤ) → IsNumberWord (format_int n)
unfolding format_int
format_int-IsNumberWord (pos n) = format_uint-IsNumberWord n
format_int-IsNumberWord (negsuc n) = record {
  head = b'-';
  rest = format_uint (suc n);
  split = refl;
  word = (unfold is_space in refl, (format_uint-IsNumberWord (suc n)).word);
}

-- The first word of a text.
words_cons :
    (s : Bytes) (c : ℕ) (rest : Bytes)
    → IsNumberWord s
    → is_space c ≡ true
    → words_from [] (s ++ c ∷ rest) ≡ s ∷ words_from [] rest
words_cons s c rest v sp = words_from-word [] s c rest v.word sp ∙ (rw v.split)

entry_words : List EpochOffset → List Bytes
entry_words [] = []
entry_words (e ∷ es) = format_uint e.leader_epoch ∷ format_int e.start_offset ∷ entry_words es

words-entry_lines : (es : List EpochOffset) → words_from [] (entry_lines es) ≡ entry_words es
unfolding entry_lines entry_words
words-entry_lines [] = unfold words_from in refl
words-entry_lines (e ∷ es) =
    words_cons _ b' ' _ (format_uint-IsNumberWord e.leader_epoch) (unfold is_space in refl)
    ∙ ap (◌∷◌ (format_uint e.leader_epoch)) (
        words_cons _ b'\n' _ (format_int-IsNumberWord e.start_offset) (unfold is_space in refl)
        ∙ ap (◌∷◌ (format_int e.start_offset)) (words-entry_lines es))

-- What an int64 can hold, of an epoch and of an offset.
abbrev pub InRange : EpochOffset → Type 0
InRange e =
    (e.leader_epoch < int64_bound)
    × (negsuc (int64_bound - 1) ≤ℤ e.start_offset)
    × (e.start_offset <ℤ pos int64_bound)

abbrev EpochsBelow : ℕ → List EpochOffset → Type 0
EpochsBelow epoch = All (λ e. e.leader_epoch < epoch)

has_epoch-EpochsBelow :
    (epoch : ℕ) (es : List EpochOffset) → EpochsBelow epoch es → has_epoch epoch es ≡ false
unfolding has_epoch
has_epoch-EpochsBelow epoch [] h = refl
has_epoch-EpochsBelow epoch (e ∷ es) h = ground (arith, h.0, has_epoch-EpochsBelow epoch es h.1)

EpochsBelow-mono : (a b : ℕ) (es : List EpochOffset) → a < b → EpochsBelow a es → EpochsBelow b es
EpochsBelow-mono a b [] lt h = tt
EpochsBelow-mono a b (e ∷ es) lt h = (omega (arith, h.0), EpochsBelow-mono a b es lt h.1)

abbrev BelowHead : List EpochOffset → List EpochOffset → Type 0
BelowHead acc [] = Unit {0}
BelowHead acc (e ∷ es) = EpochsBelow e.leader_epoch acc

BelowHead-snoc :
    (acc : List EpochOffset) (e : EpochOffset) (es : List EpochOffset)
    → EpochsBelow e.leader_epoch acc
    → Above e es
    → BelowHead (acc ++ e ∷ []) es
BelowHead-snoc acc e [] h a = tt
BelowHead-snoc acc e (f ∷ es) h a =
    All-append _ acc (e ∷ []) (EpochsBelow-mono _ _ acc a.0 h) (a.0, tt)

start_below : (es : List EpochOffset) → BelowHead [] es
start_below [] = tt
start_below (e ∷ es) = tt

parse_int-format_uint : (n : ℕ) → n < int64_bound → parse_int (format_uint n) ≡ some (pos n)
parse_int-format_uint n h =
    unfold format_int in parse_int-format_int (pos n) (omega arith) (omega arith)

read_entries-entry_words :
    (es acc : List EpochOffset)
    → IsOrderedList es
    → All InRange es
    → BelowHead acc es
    → read_entries (entry_words es) acc ≡ ok (acc ++ es)
unfolding read_entries entry_words
read_entries-entry_words [] acc o r b = rw append-nil
read_entries-entry_words (e ∷ es) acc o r b =
    rw
      (
        parse_int-format_uint e.leader_epoch r.0.0,
        parse_int-format_int e.start_offset r.0.1 r.0.2,
        has_epoch-EpochsBelow e.leader_epoch acc b,
      )
      (read_entries-entry_words es (acc ++ e ∷ []) o.1 r.1 (BelowHead-snoc acc e es b o.0)
        ∙ (rw append_assoc))

words-checkpoint :
    (es : List EpochOffset)
    → words (checkpoint es) ≡ format_uint 0 ∷ format_uint (length es) ∷ entry_words es
unfolding words checkpoint
words-checkpoint es =
    words_cons _ b'\n' _ (format_uint-IsNumberWord 0) (unfold is_space in refl)
    ∙ ap (◌∷◌ (format_uint 0)) (
        words_cons _ b'\n' _ (format_uint-IsNumberWord (length es)) (unfold is_space in refl)
        ∙ ap (◌∷◌ (format_uint (length es))) (words-entry_lines es))

-- Reading the checkpoint of an ordered cache whose epochs and offsets an int64 can hold gives its
-- entries back.
pub read-checkpoint :
    (es : List EpochOffset)
    → IsOrderedList es
    → All InRange es
    → length es < int64_bound
    → read_leader_epoch_offsets (checkpoint es) ≡ ok es
unfolding read_leader_epoch_offsets
read-checkpoint es o r n =
    rw
      (
        words-checkpoint es,
        parse_int-format_uint 0 (omega arith),
        parse_int-format_uint (length es) n,
        read_entries-entry_words es [] o r (start_below es),
      )
      (rw ((eqb_ℤ_iff (pos (length es)) (pos (length es))).1 refl))

-- After a flush without error of an ordered cache with a file, whose epochs and offsets an int64 can
-- hold, the file is there and a new cache reads the same entries from it.
pub read-flush :
    (disk : Disk) (l : Cache)
    → l.file_backed ≡ true
    → IsOrderedList l.epoch_offsets
    → All InRange l.epoch_offsets
    → length l.epoch_offsets < int64_bound
    → (flush disk l).1 ≡ none
    → (content : Bytes) × ((flush disk l).0.file ≡ some content)
      × (read_leader_epoch_offsets content ≡ ok l.epoch_offsets)
unfolding flush
read-flush disk l backed o r n e =
    (checkpoint l.epoch_offsets, ground arith, read-checkpoint l.epoch_offsets o r n)
