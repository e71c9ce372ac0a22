-- ===== src/Log/Obedient.antt =====
-- The log on a disk that takes every write.
use liftbridge.Common.{
  ℕ, ◌≡◌, refl, inl, inr, ℤ, ltb, ltb_ℤ, leb_ℤ, true, ◌&&◌, Option, none, some, Bool-cases,
  get_elem?,
}
use liftbridge.Decimal.{Bytes}
use liftbridge.Segment.{Segment}
use liftbridge.Epochs.{Disk, Cache, flush, assign, clear_latest}
use liftbridge.Epochs
use liftbridge.Log.{
  Log, segments, newest_offset, find_segment_index, clear_epochs, truncated_log, truncate,
  new_leader_epoch,
}

module _ (disk : Disk) (obeys : (content : Bytes) → disk content ≡ true) where
  flush-none : (c : Cache) → (flush disk c).1 ≡ none
  unfolding flush
  flush-none c = elim (Bool-cases c.file_backed) [
    | inl backed ↦ simp (backed, obeys (Epochs.checkpoint c.epoch_offsets)) refl
    | inr memory ↦ simp memory refl
  ]

  pub new_leader_epoch-none : (l : Log) (epoch : ℕ) → (new_leader_epoch disk l epoch).1 ≡ none
  unfolding new_leader_epoch assign
  new_leader_epoch-none l epoch =
      elim (Bool-cases (
        ltb (Epochs.latest_epoch l.epochs) epoch
        && leb_ℤ (Epochs.latest_offset l.epochs) (newest_offset l))) [
          | inl newer ↦ simp newer (flush-none _)
          | inr older ↦ simp older refl
        ]

  clear_latest-none : (c : Cache) (offset : ℤ) → (clear_latest disk c offset).1 ≡ none
  unfolding clear_latest
  clear_latest-none c offset = elim (Bool-cases (ltb_ℤ (Epochs.latest_offset c) offset)) [
    | inl before ↦ simp before refl
    | inr after ↦ simp after (flush-none _)
  ]

  truncated_log-none :
      (l : Log) (s : Option Segment) (offset : ℤ) → (truncated_log disk l s offset).1 ≡ none
  unfolding truncated_log clear_epochs
  truncated_log-none l none offset = refl
  truncated_log-none l (some s) offset = clear_latest-none _ offset

  pub truncate-none : (l : Log) (offset : ℤ) → (truncate disk l offset).1 ≡ none
  unfolding truncate
  truncate-none l offset =
      truncated_log-none l (get_elem? (segments l) (find_segment_index (segments l) offset)) offset
