-- ===== src/Log/Cleaning.antt =====
-- server/commitlog/commitlog.go: `Clean` of a log, with retention and compaction. The cleaner reads the
-- segments first, and others may be rolled out before it takes the lock again. The files of a compaction
-- can be written.
use liftbridge.Common.{
  ℕ, ◌≡◌, refl, sym, ◌∙◌, ℤ, pos, Bool, true, false, List, [], ◌∷◌, ◌++◌, Option, none, some, ltb,
  arith, if◌then◌else◌, length, drop, subst, ap, init_of, last_of, init_of-last_of,
}
use liftbridge.Decimal.{Bytes}
use liftbridge.Segment.{Segment}
use liftbridge.Retention
use liftbridge.Retention.{Limits}
use liftbridge.Retention.Order.{KeepsNewest, clean-KeepsNewest}
use liftbridge.Compaction.{compact, compact_log}
use liftbridge.Compaction.Kept.{contents}
use liftbridge.Compaction.Latest.{last_where, is_for}
use liftbridge.Compaction.Refines.{compact-IsCompacted}
use liftbridge.Epochs
use liftbridge.Epochs.{Cache, Disk, clear_earliest, replace, rebase}
use liftbridge.Log.{Log, segments, restore}
use liftbridge.Log.Order.{view, Chain, Chain-append_right, chain_end, IsValidLog, segments-restore}

pub data Cleaned : Type 0 where
  cleaned : Log → Option Epochs.Error → Cleaned
  failed : Log → Cleaned
  panicked : Cleaned

module _ (disk : Disk) where
  -- Sets the segments and the epochs: those of a compaction, or else the log's own from the first
  -- segment on, which is read out of an empty slice if there is none.
  install : Log → List Segment → Option Cache → Cleaned
  install l ss (some c) =
      let replaced = replace disk l.epochs c in
      cleaned (record (restore l ss) { epochs = replaced.0 }) replaced.1
  install l [] none = panicked
  install l (s ∷ ss) none =
      let cleared = clear_earliest disk l.epochs s.base_offset in
      cleaned (record (restore l (s ∷ ss)) { epochs = cleared.0 }) cleared.1

  rebase_from : Log → List Segment → Cache → List Segment → Cleaned
  unfolding install
  rebase_from l ss c [] = panicked
  rebase_from l ss c (t ∷ ts) =
      install l (ss ++ t ∷ ts) (some (rebase disk c l.epochs t.base_offset).0)

  -- `rebaseSegments`: a nil cache panics.
  rebase_segments : Log → List Segment → Option Cache → List Segment → Cleaned
  unfolding rebase_from
  rebase_segments l ss none new = panicked
  rebase_segments l ss (some c) new = rebase_from l ss c new

  after_clean : List Segment → Log → List Segment × Option Cache → Cleaned
  unfolding install rebase_segments
  after_clean old l r =
      if ltb (length old) (length (segments l))
      then rebase_segments l r.0 r.1 (drop (length old) (segments l))
      else install l r.0 r.1

  compacted : Bool → ℤ → List Segment → List Segment × Option Cache
  unfolding compact_log
  compacted true hw ss = compact_log disk hw ss
  compacted false hw ss = (ss, none)

  after_retention : Bool → ℤ → List Segment → Log → Retention.Outcome → Cleaned
  unfolding after_clean compacted
  after_retention compacts hw old l (Retention.kept stay gone) =
      after_clean old l (compacted compacts hw stay)
  after_retention compacts hw old l (Retention.failed gone) = failed l
  after_retention compacts hw old l (Retention.panicked gone) = panicked

  -- `Clean`, with the segments that it read at first, the high watermark at which it compacts, if it does,
  -- and the log at its end.
  unfoldable pub clean_log : (Segment → Bool) → Limits → Bool → ℤ → List Segment → Log → Cleaned
  unfolding after_retention
  clean_log deletes limits compacts hw old l =
      after_retention compacts hw old l (Retention.clean deletes limits old)

  -- The last message of every key that is not empty, up to the watermark, is the same.
  abbrev pub KeepsLatest : ℤ → List Segment → List Segment → Type 0
  KeepsLatest hw ss ss' =
      (b : ℕ) (bs : Bytes)
      → last_where (is_for (b ∷ bs) hw) (contents (view ss'))
        ≡ last_where (is_for (b ∷ bs) hw) (contents (view ss))

  abbrev pub Compacts : Bool → ℤ → List Segment → List Segment → Type 0
  Compacts true hw stay ss = KeepsLatest hw stay ss
  Compacts false hw stay ss = ss ≡ stay

  -- A cleaning that goes through, where retention keeps `stay`.
  abbrev pub GoesThrough : Bool → ℤ → Log → List Segment → Cleaned → Type 0
  GoesThrough compacts hw l stay r =
      (l' : Log) × (e : Option Epochs.Error) × (r ≡ cleaned l' e)
      × ((older : List Segment) × (segments l ≡ older ++ stay))
      × Compacts compacts hw stay (segments l')
      × Chain (pos 0) (segments l')
      × (l'.hw ≡ l.hw)

  -- What a cleaning ends in, by the end of retention.
  abbrev pub Cleans : Bool → ℤ → Log → Retention.Outcome → Cleaned → Type 0
  Cleans compacts hw l (Retention.kept [] gone) r = r ≡ panicked
  Cleans compacts hw l (Retention.kept (s ∷ stay) gone) r = GoesThrough compacts hw l (s ∷ stay) r
  Cleans compacts hw l (Retention.failed gone) r = (l' : Log) × (r ≡ failed l')
  Cleans compacts hw l (Retention.panicked gone) r = r ≡ panicked

  suffix-Chain : (gone ss : List Segment) → Chain (pos 0) (gone ++ ss) → Chain (pos 0) ss
  suffix-Chain gone ss h = go ss (Chain-append_right (pos 0) gone ss h)
    where
      go : (ss : List Segment) → Chain (chain_end (pos 0) gone) ss → Chain (pos 0) ss
      go [] h = tt
      go (s ∷ ss) h = (h.1.base, h.1, h.2)

  compact_log-KeepsLatest :
      (hw : ℤ) (ss : List Segment)
      → Chain (pos 0) ss
      → Chain (pos 0) (compact_log disk hw ss).0 × KeepsLatest hw ss (compact_log disk hw ss).0
  unfolding compact_log
  compact_log-KeepsLatest hw [] h = (tt, λ b bs. refl)
  compact_log-KeepsLatest hw (s ∷ []) h = (h, λ b bs. refl)
  compact_log-KeepsLatest hw (s ∷ t ∷ ss) h =
      let older = init_of s (t ∷ ss) in
      let last = last_of s (t ∷ ss) in
      let whole : older ++ last ∷ [] ≡ s ∷ t ∷ ss = init_of-last_of s (t ∷ ss) in
      let chain : Chain (pos 0) (older ++ last ∷ []) = subst (Chain (pos 0)) (sym whole) h in
      (
        (compact-IsCompacted disk hw older last 0 [] chain).chain,
        λ b bs.
            (compact-IsCompacted disk hw older last b bs chain).latest
            ∙ ap (λ xs. last_where (is_for (b ∷ bs) hw) (contents (view xs))) whole,
      )

  abbrev HasSegment : List Segment → Type 0
  HasSegment [] = ⊥
  HasSegment (s ∷ ss) = Unit {0}

  append-HasSegment : (ss : List Segment) (s : Segment) → HasSegment (ss ++ s ∷ [])
  append-HasSegment [] s = tt
  append-HasSegment (t ∷ ss) s = tt

  compacted-HasSegment :
      (compacts : Bool) (hw : ℤ) (s : Segment) (ss : List Segment)
      → HasSegment (compacted compacts hw (s ∷ ss)).0
  unfolding compacted compact_log compact
  compacted-HasSegment true hw s [] = tt
  compacted-HasSegment true hw s (t ∷ ss) = append-HasSegment _ (last_of s (t ∷ ss))
  compacted-HasSegment false hw s ss = tt

  compacted-nil : (compacts : Bool) (hw : ℤ) → compacted compacts hw [] ≡ ([], none)
  unfolding compacted compact_log
  compacted-nil true hw = refl
  compacted-nil false hw = refl

  compacted-Compacts :
      (compacts : Bool) (hw : ℤ) (ss : List Segment)
      → Chain (pos 0) ss
      → Chain (pos 0) (compacted compacts hw ss).0
        × Compacts compacts hw ss (compacted compacts hw ss).0
  unfolding compacted
  compacted-Compacts true hw ss h = compact_log-KeepsLatest hw ss h
  compacted-Compacts false hw ss h = (h, refl)

  install-GoesThrough :
      (compacts : Bool) (hw : ℤ) (l : Log) (older stay ss : List Segment) (c : Option Cache)
      → segments l ≡ older ++ stay
      → HasSegment ss
      → Chain (pos 0) ss × Compacts compacts hw stay ss
      → GoesThrough compacts hw l stay (install l ss c)
  unfolding install
  install-GoesThrough compacts hw l older stay [] c e full h = absurd full
  install-GoesThrough compacts hw l older stay (s ∷ ss) none e full h =
      let same = sym (segments-restore l s ss) in
      (
        _,
        _,
        refl,
        (older, e),
        subst (Compacts compacts hw stay) same h.1,
        subst (Chain (pos 0)) same h.0,
        refl,
      )
  install-GoesThrough compacts hw l older stay (s ∷ ss) (some c) e full h =
      let same = sym (segments-restore l s ss) in
      (
        _,
        _,
        refl,
        (older, e),
        subst (Compacts compacts hw stay) same h.1,
        subst (Chain (pos 0)) same h.0,
        refl,
      )

  no_segment_added : (l : Log) → ltb (length (segments l)) (length (segments l)) ≡ false
  no_segment_added l = ground arith

  after_retention-Cleans :
      (compacts : Bool) (hw : ℤ) (l : Log) (o : Retention.Outcome)
      → IsValidLog l
      → KeepsNewest (segments l) [] o
      → Cleans compacts hw l o (after_retention compacts hw (segments l) l o)
  unfolding after_retention after_clean
  after_retention-Cleans compacts hw l (Retention.kept [] gone) v k =
      rw (no_segment_added l, compacted-nil compacts hw) (unfold install in refl)
  after_retention-Cleans compacts hw l (Retention.kept (s ∷ stay) gone) v (since, e, keeps) =
      let chain = suffix-Chain keeps.older (s ∷ stay) (subst (Chain (pos 0)) keeps.split v.chain) in
      rw (no_segment_added l) (
        install-GoesThrough compacts hw l keeps.older (s ∷ stay)
          (compacted compacts hw (s ∷ stay)).0 (compacted compacts hw (s ∷ stay)).1 keeps.split
          (compacted-HasSegment compacts hw s stay)
          (compacted-Compacts compacts hw (s ∷ stay) chain))
  after_retention-Cleans compacts hw l (Retention.failed gone) v h = (l, refl)
  after_retention-Cleans compacts hw l (Retention.panicked gone) v h = refl

  -- A cleaning of a well-formed log to which no segment is added meanwhile, by what retention ends
  -- in on its segments. When retention keeps a segment, the cleaning goes through, though the
  -- epochs may not be stored: what retention keeps are the newest segments, in order; without
  -- compaction these are the segments of the log; with it, the log has for every key that is not
  -- empty the same last message up to the high watermark of the compaction as they have; the
  -- segments follow one another still, and the high watermark stays. When retention fails, so does
  -- the cleaning. When it keeps no segment or panics, the cleaning panics.
  pub clean_log-Cleans :
      (deletes : Segment → Bool) (limits : Limits) (compacts : Bool) (hw : ℤ) (l : Log)
      → IsValidLog l
      → Cleans compacts hw l
          (Retention.clean deletes limits (segments l))
          (clean_log deletes limits compacts hw (segments l) l)
  unfolding clean_log
  clean_log-Cleans deletes limits compacts hw l v =
      after_retention-Cleans compacts hw l _ v (clean-KeepsNewest deletes limits (segments l))
