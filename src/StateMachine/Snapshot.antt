-- ===== src/StateMachine/Snapshot.antt =====
-- What a snapshot keeps of the partitions, and what it forgets.
use liftbridge.Common.{
  ℕ, ◌≡◌, refl, sym, ap, subst, ◌∙◌, inl, inr, Bool, true, false, ◌&&◌, List, [], ◌∷◌, ◌++◌, map,
  append-nil, append_assoc, Option, none, some, arith, ◌==◌, if◌then◌else◌, Bool-cases,
}
use liftbridge.Log.{Log}
use liftbridge.Partition.Queue.{QueueOps}
use liftbridge.Partition.{Partition}
use liftbridge.Partition.Lifecycle
use liftbridge.Partition.Lifecycle.{ProtoPartition, new_partition, set_leader}
use liftbridge.Partition.Lifecycle.Ends.{succeeded}
use liftbridge.Partition.Lifecycle.Roles.{set_leader-Keeps}
use liftbridge.Fsm.{Entry, get_partition, is_at}
use liftbridge.Metadata.{
  Metadata, World, set_partition, add_partition, start_added, with_stream, is_taken, close_all,
  reset,
}
use liftbridge.Metadata
use liftbridge.StateMachine.{Stored, proto_of, stored, snapshot, restore_each, restore}

-- Whether a partition is among the stored ones.
abbrev pub has_key : ℕ → ℕ → List Stored → Bool
has_key stream id [] = false
has_key stream id (s ∷ ss) = if s.stream == stream && s.id == id then true else has_key stream id ss

-- The stored partitions are distinct, and distinct from those seen before.
abbrev pub AreFresh : List Stored → List Stored → Type 0
AreFresh seen [] = Unit {0}
AreFresh seen (s ∷ ss) = (has_key s.stream s.id seen ≡ false) × AreFresh (seen ++ s ∷ []) ss

lift_error :
    (o : Option Lifecycle.Failure) → Lifecycle.is_error o ≡ true → Metadata.lift o ≡ none → ⊥
lift_error none e h = cc
lift_error (some f) e h = cc

module _ {Q : Type 0} where
  key-get :
      (stream id : ℕ) (es : List (Entry Q))
      → has_key stream id (map stored es) ≡ false
      → get_partition stream id es ≡ none
  unfolding get_partition
  key-get stream id [] h = refl
  key-get stream id (e ∷ es) h = elim (Bool-cases (is_at stream id e)) [
    | inl here ↦ cc (simp here at h)
    | inr later ↦ simp later (key-get stream id es (simp later at h))
  ]

  map-append : (xs ys : List (Entry Q)) → map stored (xs ++ ys) ≡ map stored xs ++ map stored ys
  map-append [] ys = refl
  map-append (x ∷ xs) ys = ap (◌∷◌ (stored x)) (map-append xs ys)

  set_new :
      (stream id : ℕ) (p : Partition Q) (es : List (Entry Q))
      → has_key stream id (map stored es) ≡ false
      → set_partition stream id p es
        ≡ es ++ (record { stream = stream; id = id; part = p; report = none }) ∷ []
  unfolding set_partition
  set_new stream id p [] h = refl
  set_new stream id p (e ∷ es) h = elim (Bool-cases (is_at stream id e)) [
    | inl here ↦ cc (simp here at h)
    | inr later ↦ simp later (ap (◌∷◌ e) (set_new stream id p es (simp later at h)))
  ]

  proto_same :
      (p : Partition Q) (proto : ProtoPartition)
      → p.leader_id ≡ proto.leader_id
      → p.leader_epoch ≡ proto.leader_epoch
      → p.epoch ≡ proto.epoch
      → p.replicas ≡ proto.replicas
      → p.stored_isr ≡ proto.isr
      → proto_of p ≡ proto
  unfolding proto_of
  proto_same p proto a b c d e = cc

  module _ (ops : QueueOps Q) (min_isr : ℕ) (w : World Q) where
    started-proto :
        (stream id : ℕ) (proto : ProtoPartition) (recovered : Bool) (log : Log)
        → let p = new_partition w.self w.nil_queue log proto recovered in
          proto_of
            (set_leader ops min_isr w.disk
              (w.answers stream id)
              (w.leader_offset stream id)
              proto.leader_id
              proto.leader_epoch
              p).0
          ≡ proto
    unfolding new_partition
    started-proto stream id proto recovered log =
        let p = new_partition w.self w.nil_queue log proto recovered in
        let k =
          set_leader-Keeps ops min_isr w.disk (w.answers stream id) (w.leader_offset stream id)
            proto.leader_id proto.leader_epoch p (inl (refl, refl, refl)) (omega arith) in
        proto_same _ proto k.2 k.3 k.4 k.1 k.6

    start_added-stored :
        (stream id : ℕ) (proto : ProtoPartition) (recovered : Bool) (m : Metadata Q)
        (log : Option Log)
        → has_key stream id (map stored m.entries) ≡ false
        → (start_added ops min_isr w stream id proto recovered m log).1 ≡ none
        → map stored (start_added ops min_isr w stream id proto recovered m log).0.entries
          ≡ map stored m.entries ++ (record { stream = stream; id = id; proto = proto }) ∷ []
    unfolding start_added
    start_added-stored stream id proto recovered m none h k = cc
    start_added-stored stream id proto recovered m (some log) h k =
        let p =
          (set_leader ops min_isr w.disk (w.answers stream id) (w.leader_offset stream id)
            proto.leader_id proto.leader_epoch
            (new_partition w.self w.nil_queue log proto recovered)).0 in
        ap (map stored) (set_new stream id p m.entries h)
        ∙ map-append m.entries _
        ∙ ap (λ x. map stored m.entries ++ (record { stream = stream; id = id; proto = x }) ∷ [])
            (started-proto stream id proto recovered log)

    with_stream-entries : (stream : ℕ) (m : Metadata Q) → (with_stream stream m).entries ≡ m.entries
    unfolding with_stream
    with_stream-entries stream m = elim (Bool-cases (Metadata.has_stream stream m.streams)) [
      | inl there ↦ simp there refl
      | inr new_ ↦ simp new_ refl
    ]

    added-stored :
        (stream id : ℕ) (proto : ProtoPartition) (recovered : Bool) (m : Metadata Q)
        → has_key stream id (map stored m.entries) ≡ false
        → (add_partition ops min_isr w stream id proto recovered m).1 ≡ none
        → map stored (add_partition ops min_isr w stream id proto recovered m).0.entries
          ≡ map stored m.entries ++ (record { stream = stream; id = id; proto = proto }) ∷ []
    unfolding add_partition is_taken
    added-stored stream id proto recovered m h = rw (key-get stream id m.entries h) (λ k.
        let same = with_stream-entries stream m in
        let fresh = subst (λ es. has_key stream id (map stored es) ≡ false) (sym same) h in
        start_added-stored stream id proto recovered (with_stream stream m) (w.open_log stream id)
          fresh k
        ∙ ap (λ es. map stored es ++ (record { stream = stream; id = id; proto = proto }) ∷ [])
            same)

    restore_each-stored :
        (ss : List Stored) (m : Metadata Q)
        → AreFresh (map stored m.entries) ss
        → (restore_each ops min_isr w ss m).1 ≡ none
        → map stored (restore_each ops min_isr w ss m).0.entries ≡ map stored m.entries ++ ss
    unfolding restore_each
    restore_each-stored [] m h k = sym (append-nil (map stored m.entries))
    restore_each-stored (s ∷ ss) m h k =
        let m1 = (add_partition ops min_isr w s.stream s.id s.proto false m).0 in
        let both =
          succeeded (add_partition ops min_isr w s.stream s.id s.proto false m)
            (restore_each ops min_isr w ss m1) k in
        let one : map stored m1.entries ≡ map stored m.entries ++ s ∷ [] =
          added-stored s.stream s.id s.proto false m h.0 both.0 in
        let fresh : AreFresh (map stored m1.entries) ss =
          subst (λ seen. AreFresh seen ss) (sym one) h.1 in
        ap (λ r. map stored r.0.entries) both.2
        ∙ restore_each-stored ss m1 fresh both.1
        ∙ ap (λ xs. xs ++ ss) one
        ∙ append_assoc (map stored m.entries) (s ∷ []) ss

    reset-empty :
        (m : Metadata Q) → (reset ops min_isr w m).1 ≡ none → (reset ops min_isr w m).0.entries ≡ []
    unfolding reset
    reset-empty m h =
        elim (Bool-cases (Lifecycle.is_error (close_all ops min_isr w m.streams m.entries).1)) [
          | inl stuck ↦
              absurd
                (lift_error (close_all ops min_isr w m.streams m.entries).1 stuck (simp stuck at h))
          | inr closed ↦ simp closed refl
        ]

    -- A server that restores the snapshot of another one, whose partitions are distinct, without an
    -- error has the same snapshot.
    pub restore-snapshot :
        (m m' : Metadata Q)
        → AreFresh [] (snapshot m)
        → (restore ops min_isr w (snapshot m) m').1 ≡ none
        → snapshot (restore ops min_isr w (snapshot m) m').0 ≡ snapshot m
    unfolding restore snapshot
    restore-snapshot m m' h k =
        let cleared = reset ops min_isr w m' in
        let both = succeeded cleared (restore_each ops min_isr w (snapshot m) cleared.0) k in
        let empty = reset-empty m' both.0 in
        ap (λ r. map stored r.0.entries) both.2
        ∙ restore_each-stored (snapshot m) cleared.0
            (subst (λ es. AreFresh (map stored es) (snapshot m)) (sym empty) h) both.1
        ∙ ap (λ es. map stored es ++ snapshot m) empty
