-- ===== src/Controller/Fresh.antt =====
-- A plan that is newly scheduled starts from the beginning, and the cleanup is scheduled once.
use kudo.Prelude.{
  ℕ, ◌≡◌, ◌≢◌, refl, ◌⊎◌, inl, inr, String, Bool, true, false, ◌&&◌, List, [], ◌∷◌, some, ok, ◌==◌,
  map, arith, eq_iff, Bool-cases, All,
}
use kudo.Libraries.{Packages}
use kudo.Api.ExecutionStatus.{pending, never_run}
use kudo.Api.StepStatus
use kudo.Api.StepStatus.{StepStatus}
use kudo.Api.PhaseStatus.{PhaseStatus}
use kudo.Api.PlanStatus.{PlanStatus}
use kudo.Api.Operator.{OperatorVersion}
use kudo.Api.Instance.{
  Instance, PlanExecution, find_plan, put_plan, meets_plan, reset_phase, reset_plan,
  reset_plan_status, update_instance_status, cleanup_plan_name,
}
use kudo.Controller.Plans.{
  reset_plan_status_if_plan_is_new, scheduled_plan, has_to_schedule_cleanup_after_deletion,
  with_execution,
}

abbrev pub PendingStep : StepStatus → Type 0
PendingStep s = (s.status ≡ pending) × (s.message ≡ "")

abbrev pub PendingPhase : PhaseStatus → Type 0
PendingPhase p = (p.status ≡ pending) × (p.message ≡ "") × All PendingStep p.steps

and_false : (b : Bool) → (b && false) ≡ false
and_false true = refl
and_false false = refl

steps_pending : (steps : List StepStatus) → All PendingStep (map (StepStatus.set pending) steps)
steps_pending [] = tt
steps_pending (s ∷ rest) = ((refl, refl), steps_pending rest)

phases_pending : (phases : List PhaseStatus) → All PendingPhase (map reset_phase phases)
phases_pending [] = tt
phases_pending (p ∷ rest) = ((refl, refl, steps_pending p.steps), phases_pending rest)

find_plan_name :
    (plan : String) (xs : List (String × PlanStatus)) (ps : PlanStatus)
    → find_plan plan xs ≡ some ps
    → ps.name ≡ plan
unfolding find_plan
find_plan_name plan [] ps h = cc
find_plan_name plan ((k, p) ∷ rest) ps h =
    ground (arith, eq_iff p.name plan, find_plan_name plan rest ps)

find-put_plan :
    (plan : String) (xs : List (String × PlanStatus)) (ps new : PlanStatus)
    → find_plan plan xs ≡ some ps
    → new.name ≡ plan
    → find_plan plan (put_plan new xs) ≡ some new
unfolding find_plan put_plan
find-put_plan plan [] ps new h e = cc
find-put_plan plan ((k, p) ∷ rest) ps new h e = ground (
  arith,
  eq_iff p.name plan,
  eq_iff p.name new.name,
  eq_iff new.name plan,
  find-put_plan plan rest ps new,
)

meets-find_plan :
    (plan : String) (xs : List (String × PlanStatus)) (ps new : PlanStatus)
    → find_plan plan xs ≡ some ps
    → new.name ≡ plan
    → meets_plan new xs ≡ true
unfolding find_plan meets_plan
meets-find_plan plan [] ps new h e = cc
meets-find_plan plan ((k, p) ∷ rest) ps new h e = ground (
  arith,
  eq_iff p.name plan,
  eq_iff p.name new.name,
  eq_iff new.name plan,
  meets-find_plan plan rest ps new,
)

-- What a plan is that starts: it has the scheduled UID and every phase and step is pending.
abbrev pub Starts : String → String → Instance → PlanStatus → Type 0
Starts plan uid j ps =
    (ps.uid ≡ uid)
    × (ps.status ≡ pending)
    × All PendingPhase ps.phases
    × (j.spec.plan_execution.status ≡ pending)
    × (find_plan plan j.status.plan_status ≡ some ps)

module _ (packages : Packages) where
  reset-Starts :
      (i : Instance) (plan uid : String) (now : ℕ) (ps : PlanStatus)
      → find_plan plan i.status.plan_status ≡ some ps
      → Starts plan uid
          (reset_plan_status packages ps uid now i).0
          (reset_plan_status packages ps uid now i).1
  unfolding reset_plan_status update_instance_status
  reset-Starts i plan uid now ps h =
      let name = find_plan_name plan i.status.plan_status ps h in
      let new = reset_plan uid ps in
      let stamped = record new { last_updated_timestamp = some now } in
      let met = meets-find_plan plan i.status.plan_status ps new h name in
      let found = find-put_plan plan i.status.plan_status ps stamped h name in
      rw met (refl, refl, phases_pending ps.phases, refl, found)

  -- For a plan that the instance has a status of, there is no error. If the scheduled UID is the
  -- status's own, nothing changes. If not, the plan, its phases and its steps are pending with no
  -- message, the status has the scheduled UID, and the instance has it and its spec is pending too.
  pub reset_plan_status_if_plan_is_new-Starts :
      (i : Instance) (plan uid : String) (now : ℕ) (ps : PlanStatus)
      → find_plan plan i.status.plan_status ≡ some ps
      → (j : Instance) × (new : PlanStatus) × (reset_plan_status_if_plan_is_new packages i plan uid
            now
          ≡ ok (j, new))
        × (((ps.uid ≡ uid) × (j ≡ i) × (new ≡ ps)) ⊎ ((ps.uid ≢ uid) × Starts plan uid j new))
  unfolding reset_plan_status_if_plan_is_new
  reset_plan_status_if_plan_is_new-Starts i plan uid now ps h = elim (Bool-cases (ps.uid == uid)) [
    | inl e ↦ (
      i,
      ps,
      rw (h, reset_plan_status_if_plan_is_new) (rw e refl),
      inl ((eq_iff ps.uid uid).0 e, refl, refl),
    )
    | inr e ↦
        let r = reset_plan_status packages ps uid now i in
        (
          r.0,
          r.1,
          rw (h, reset_plan_status_if_plan_is_new) (rw e refl),
          inr (λ f. cc ((eq_iff ps.uid uid).1 f, e), reset-Starts i plan uid now ps h),
        )
  ]

-- The execution that the deletion of an instance schedules.
abbrev cleanup_execution : String → PlanExecution
cleanup_execution uid = record { plan_name = cleanup_plan_name; uid = uid; status = never_run }

scheduled :
    (i : Instance) (ov : OperatorVersion) (uid : String)
    → has_to_schedule_cleanup_after_deletion i ov ≡ true
    → scheduled_plan uid i ov ≡ with_execution (cleanup_execution uid) i
unfolding scheduled_plan
scheduled i ov uid e = rw e refl

scheduled_before :
    (i : Instance) (ov : OperatorVersion) (uid : String)
    → has_to_schedule_cleanup_after_deletion (with_execution (cleanup_execution uid) i) ov ≡ false
unfolding has_to_schedule_cleanup_after_deletion
scheduled_before i ov uid = and_false _

-- An instance for which the cleanup has been scheduled is not scheduled for it again, and keeps the
-- UID that it was given.
pub scheduled_plan_twice :
    (i : Instance) (ov : OperatorVersion) (first second : String)
    → scheduled_plan second (scheduled_plan first i ov) ov ≡ scheduled_plan first i ov
unfolding scheduled_plan
scheduled_plan_twice i ov first second =
    elim (Bool-cases (has_to_schedule_cleanup_after_deletion i ov)) [
      | inl e ↦
          let f = scheduled_before i ov first in
          rw (scheduled i ov first e) (rw (f, scheduled_plan) refl)
      | inr e ↦ rw e (rw e refl)
    ]
