-- ===== src/Metadata/Leaders.antt =====
-- server/metadata.go: reports of unresponsive leaders, and the choice of a new one by the metadata
-- leader; the checks before a change of an in-sync set; the choice of replicas.
use liftbridge.Common.{
  ℕ, ◌-◌, ◌/◌, ℤ, pos, negsuc, Bool, true, false, ◌&&◌, not, List, [], ◌∷◌, map, Option, none, some,
  ltb, leb, ◌==◌, if◌then◌else◌, keep, length, get_elem?, take,
}
use liftbridge.Segment.{contains}
use liftbridge.Partition.{Partition, Replica}
use liftbridge.Fsm.{Entry, Report, is_at, get_partition}

-- What the requests that name a leader carry: `ReportLeaderOp`, `ShrinkISROp`, `ExpandISROp`.
pub record LeaderRequest : Type 0 where
  pub stream : ℕ
  pub id : ℕ
  pub replica : ℕ
  pub leader : ℕ
  pub leader_epoch : ℕ

pub data Check : Type 0 where
  passes no_such_partition generation_mismatch : Check

-- `ChangeLeaderOp`.
pub record ChangeLeader : Type 0 where
  pub stream : ℕ
  pub leader : ℕ
  pub id : ℕ

pub data Verdict (Q : Type 0) : Type 0 where
  rejected : Check → Verdict Q
  -- The report is kept, and no leader is to be chosen.
  counted : List (Entry Q) → Verdict Q
  no_candidates : List (Entry Q) → Verdict Q
  elects : List (Entry Q) → ChangeLeader → Verdict Q

abbrev pub insert : ℕ → List ℕ → List ℕ
insert id ids = if contains id ids then ids else id ∷ ids

-- `reported == nil`.
abbrev pub report_of : Option Report → Report
report_of none = record { witnesses = []; timer_runs = false }
report_of (some r) = r

expired : Option Report → Option Report
expired none = none
expired (some r) = if r.timer_runs then none else some r

-- The operation for one of the candidates, which `choose` picks. It does not name the partition: its
-- number is 0.
unfoldable pub elect_from : (ℕ → List ℕ → ℕ) → ℕ → List ℕ → Option ChangeLeader
elect_from choose stream [] = none
elect_from choose stream (c ∷ cs) = some (record { stream = stream; leader = choose c cs; id = 0 })

module _ {Q : Type 0} where
  check_generation : LeaderRequest → Option (Partition Q) → Check
  check_generation req none = no_such_partition
  check_generation req (some p) =
      if not (req.leader == p.leader_id && req.leader_epoch == p.leader_epoch)
      then generation_mismatch
      else passes

  -- The checks of `ShrinkISR`, `ExpandISR` and `ReportLeader`.
  unfoldable pub check_request : LeaderRequest → List (Entry Q) → Check
  unfolding check_generation
  check_request req es = check_generation req (get_partition req.stream req.id es)

  -- `addWitness`: the report, and whether the leader has failed.
  unfoldable pub add_witness : Partition Q → ℕ → Report → Report × Bool
  unfolding contains
  add_witness p replica r =
      let witnesses = insert replica r.witnesses in
      if ltb ((length p.isr - 1) / 2) (length witnesses)
      then (record { witnesses = witnesses; timer_runs = false }, true)
      else (record { witnesses = witnesses; timer_runs = true }, false)

  unfoldable pub candidates : Partition Q → List ℕ
  candidates p = keep (λ id. not (id == p.leader_id)) (map (λ (r : Replica). r.id) p.isr)

  -- `electNewPartitionLeader` up to the proposal.
  unfoldable pub elect : (ℕ → List ℕ → ℕ) → ℕ → Partition Q → Option ChangeLeader
  unfolding candidates elect_from
  elect choose stream p =
      if leb (length p.isr) 1 then none else elect_from choose stream (candidates p)

  unfoldable pub put_report : ℕ → ℕ → Option Report → List (Entry Q) → List (Entry Q)
  put_report stream id r es = map (λ e. if is_at stream id e then record e { report = r } else e) es

  unfoldable pub get_report : ℕ → ℕ → List (Entry Q) → Option Report
  get_report stream id [] = none
  get_report stream id (e ∷ es) =
      let rest = get_report stream id es in if is_at stream id e then e.report else rest

  unfoldable pub verdict : List (Entry Q) → Option ChangeLeader → Verdict Q
  verdict es none = no_candidates es
  verdict es (some op) = elects es op

  unfoldable pub report_on :
      (ℕ → List ℕ → ℕ) → LeaderRequest → List (Entry Q) → Option (Partition Q) → Verdict Q
  unfolding add_witness put_report elect verdict check_generation get_report
  report_on choose req es none = rejected no_such_partition
  report_on choose req es (some p) =
      let r = add_witness p req.replica (report_of (get_report req.stream req.id es)) in
      let es1 = put_report req.stream req.id (some r.0) es in
      if not (req.leader == p.leader_id && req.leader_epoch == p.leader_epoch)
      then rejected generation_mismatch
      else if r.1
      then verdict es1 (elect choose req.stream p)
      else counted es1

  -- `ReportLeader` on the metadata leader.
  unfoldable pub report_leader : (ℕ → List ℕ → ℕ) → LeaderRequest → List (Entry Q) → Verdict Q
  unfolding report_on
  report_leader choose req es = report_on choose req es (get_partition req.stream req.id es)

  -- The timer of a report, when it fires.
  unfoldable pub expire : ℕ → ℕ → List (Entry Q) → List (Entry Q)
  unfolding expired put_report get_report
  expire stream id es = put_report stream id (expired (get_report stream id es)) es

  -- `LostLeadership`.
  unfoldable pub lost_leadership : List (Entry Q) → List (Entry Q)
  lost_leadership es = map {A = Entry Q} (λ e. record e { report = none }) es

pub data Selected : Type 0 where
  replicas : List ℕ → Selected
  invalid_factor : Selected

pick : List ℕ → List ℕ → List ℕ
pick ids [] = []
pick ids (i ∷ is) = elim (get_elem? ids i) [ none ↦ pick ids is | some id ↦ id ∷ pick ids is ]

-- -1 stands for every server.
max_factor : ℤ → ℕ → ℤ
max_factor (pos n) size = pos n
max_factor (negsuc n) size = if n == 0 then pos size else negsuc n

take_factor : ℤ → List ℕ → List ℕ → Selected
unfolding pick
take_factor (negsuc n) ids perm = invalid_factor
take_factor (pos n) ids perm =
    if n == 0
    then invalid_factor
    else if ltb (length ids) n
    then invalid_factor
    else replicas (pick ids (take n perm))

-- `getPartitionReplicas`, given the servers of the cluster and a random permutation of their
-- indexes.
unfoldable pub get_partition_replicas : ℤ → List ℕ → List ℕ → Selected
unfolding max_factor take_factor
get_partition_replicas factor ids perm = take_factor (max_factor factor (length ids)) ids perm
