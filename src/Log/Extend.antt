-- ===== src/Log/Extend.antt =====
-- Records at the end of a well-formed log, whatever their offsets.
use liftbridge.Common.{
  ℕ, ◌≡◌, ◌≢◌, refl, sym, ap, ◌∙◌, inl, inr, ℤ, pos, ◌<ℤ◌, true, false, List, [], ◌∷◌, ◌++◌, map,
  append_assoc, Option, none, some, arith, ltb, Bool-cases, All,
}
use liftbridge.Segment
use liftbridge.Segment.{
  Record, Segment, new_segment, next_offset, check_split, seal, notify_waiters, write_message_set,
  written,
}
use liftbridge.Segment.Write.{IsValid, Rising, end_of, written-IsValid, next_offset-written}
use liftbridge.Epochs.{Cache, Disk, assign, flush, and_then}
use liftbridge.Epochs
use liftbridge.Log.{
  Log, Outcome, appended, failed, panicked, stuck, segments, total_size, assign_epochs, finish,
  append_records,
}
use liftbridge.Log.Order.{view, Chain-append, Chain-append_left, Chain-append_right, IsValidLog}
use liftbridge.Log.Split.{view-segments, active-IsValid}

abbrev pub AllGood : Disk → Type 0
AllGood disk = (c : List ℕ) → disk c ≡ true

assign_fine :
    (disk : Disk) (c : Cache) (epoch : ℕ) (offset : ℤ)
    → AllGood disk
    → (assign disk c epoch offset).1 ≡ none
unfolding assign flush
assign_fine disk c epoch offset good = ground (
  arith,
  good (
      Epochs.checkpoint
        (c.epoch_offsets ++ (record { leader_epoch = epoch; start_offset = offset }) ∷ [])),
)

and_then_fine :
    (p : Cache × Option Epochs.Error) (f : Cache → Cache × Option Epochs.Error)
    → p.1 ≡ none
    → ((c : Cache) → (f c).1 ≡ none)
    → (and_then p f).1 ≡ none
and_then_fine (c, none) f h k = k c
and_then_fine (c, some e) f h k = h

assign_epochs_fine :
    (disk : Disk) (c : Cache) (last : ℕ) (rs : List Record)
    → AllGood disk
    → (assign_epochs disk c last rs).1 ≡ none
unfolding assign_epochs
assign_epochs_fine disk c last [] good = refl
assign_epochs_fine disk c last (r ∷ rs) good = elim (Bool-cases (ltb last r.leader_epoch)) [
  | inl newer ↦ rw newer (
      and_then_fine (assign disk c r.leader_epoch r.offset)
        (λ c'. assign_epochs disk c' r.leader_epoch rs)
        (assign_fine disk c r.leader_epoch r.offset good)
        (λ c'. assign_epochs_fine disk c' r.leader_epoch rs good))
  | inr older ↦ rw older (assign_epochs_fine disk c last rs good)
]

-- What an append that succeeds promises of the new log and the offsets.
abbrev pub Appends : Outcome → (Log → List ℤ → Type 0) → Type 0
Appends (appended l offsets) P = P l offsets
Appends (failed l e) P = ⊥
Appends panicked P = ⊥
Appends stuck P = ⊥

pub Appends-map :
    (o : Outcome) (P Q : Log → List ℤ → Type 0)
    → ((l : Log) (offsets : List ℤ) → P l offsets → Q l offsets)
    → Appends o P
    → Appends o Q
Appends-map (appended l offsets) P Q f h = f l offsets h
Appends-map (failed l e) P Q f h = h
Appends-map panicked P Q f h = h
Appends-map stuck P Q f h = h

finish_fine :
    (l : Log) (offsets : List ℤ) (p : Cache × Option Epochs.Error)
    → p.1 ≡ none
    → finish l offsets p ≡ appended (record l { epochs = p.0 }) offsets
unfolding finish
finish_fine l offsets (c, none) h = refl
finish_fine l offsets (c, some e) h = cc

write_open :
    (s : Segment) (n : ℕ) (r : Record) (rs : List Record)
    → s.closed ≡ false
    → write_message_set s n (r ∷ rs) true ≡ Segment.done (written s n r rs)
unfolding write_message_set
write_open s n r rs h = simp h

installed-IsValidLog :
    (l : Log) (a : Segment) (c : Cache)
    → IsValidLog l
    → IsValid a
    → a.base_offset ≡ l.active.base_offset
    → a.closed ≡ l.active.closed
    → IsValidLog (record l { active = a; epochs = c })
installed-IsValidLog l a c v w base closed = record {
  chain =
      Chain-append (pos 0) l.older (a ∷ [])
        (Chain-append_left (pos 0) l.older (l.active ∷ []) v.chain)
        (rw base (Chain-append_right (pos 0) l.older (l.active ∷ []) v.chain).0, w, tt);
  open_active = closed ∙ v.open_active;
}

view-written :
    (l : Log) (c : Cache) (n : ℕ) (r : Record) (rs : List Record)
    → view (segments (record l { active = written l.active n r rs; epochs = c }))
      ≡ view (segments l) ++ r ∷ rs
unfolding written
view-written l c n r rs =
    view-segments (record l { active = written l.active n r rs; epochs = c })
    ∙ (sym (append_assoc (view l.older) l.active.records (r ∷ rs))
        ∙ ap (λ xs. xs ++ r ∷ rs) (sym (view-segments l)))

append_not_empty : (xs : List Record) (r : Record) (rs : List Record) → xs ++ r ∷ rs ≢ []
append_not_empty [] r rs h = cc
append_not_empty (x ∷ xs) r rs h = cc

-- The log after records have been put at its end.
pub record IsExtended (l l' : Log) (rs : List Record) (offsets : List ℤ) : Type 0 where
  pub valid : IsValidLog l'
  pub records : view (segments l') ≡ view (segments l) ++ rs
  pub offsets_of : offsets ≡ map (λ (r : Record). r.offset) rs
  pub watermark : l'.hw ≡ l.hw
  pub next : next_offset l'.active ≡ end_of (next_offset l.active) rs
  pub not_empty : l'.active.records ≢ []

-- Records that rise from the next offset on can be written to the active segment.
pub append_records-IsExtended :
    (disk : Disk) (l : Log) (r : Record) (rs : List Record)
    → IsValidLog l
    → AllGood disk
    → Rising (next_offset l.active) (r ∷ rs)
    → All (λ (x : Record). pos 0 <ℤ x.timestamp) (r ∷ rs)
    → Appends (append_records disk l (r ∷ rs) true) (λ l' offsets. IsExtended l l' (r ∷ rs) offsets)
unfolding append_records
append_records-IsExtended disk l r rs v good rising stamped =
    let n = total_size (r ∷ rs) in
    let a = written l.active n r rs in
    let valid = written-IsValid l.active n r rs (active-IsValid l v) rising stamped in
    let epochs = assign_epochs disk l.epochs (Epochs.latest_epoch l.epochs) (r ∷ rs) in
    let fine = assign_epochs_fine disk l.epochs (Epochs.latest_epoch l.epochs) (r ∷ rs) good in
    rw
      (
        write_open l.active n r rs v.open_active,
        finish_fine (record l { active = a }) (map (λ (x : Record). x.offset) (r ∷ rs)) epochs fine,
      )
      (record {
        valid =
            installed-IsValidLog l a epochs.0 v valid (unfold written in refl)
              (unfold written in refl);
        records = view-written l epochs.0 n r rs;
        offsets_of = refl;
        watermark = refl;
        next = next_offset-written l.active n r rs (active-IsValid l v) valid;
        not_empty = unfold written in append_not_empty l.active.records r rs;
      })
