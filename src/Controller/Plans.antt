-- ===== src/Controller/Plans.antt =====
-- pkg/controller/instance/instance_controller.go: the plan that is scheduled, and the statuses of
-- the plans before it runs.
use kudo.Prelude.{
  ℕ, String, Bool, not, ◌&&◌, ◌||◌, List, [], ◌∷◌, Option, none, some, Result, ok, err, ◌==◌,
  if◌then◌else◌, concat,
}
use kudo.Prelude.Maps.{lookup, insert}
use kudo.Libraries.{Packages}
use kudo.Api.ExecutionStatus.{never_run}
use kudo.Api.StepStatus.{StepStatus}
use kudo.Api.PhaseStatus.{PhaseStatus, get_step_status}
use kudo.Api.PlanStatus.{PlanStatus, find_phase, modify_phase}
use kudo.Api.Operator.{Step, Phase, Plan, OperatorVersion}
use kudo.Api.Instance.{
  Instance, PlanExecution, plan_status, is_deleting, cleanup_plan_exists, cleanup_plan_name,
  deploy_plan_name, upgrade_plan_name, update_plan_name, plan_in_progress, never_ran, set_readiness,
  reset_plan_status, find_plan,
}
use kudo.Engine.{Error, plain_error}

unfoldable pub has_to_schedule_cleanup_after_deletion : Instance → OperatorVersion → Bool
unfolding find_plan
has_to_schedule_cleanup_after_deletion i ov =
    (is_deleting i && cleanup_plan_exists ov)
    && never_ran (plan_status cleanup_plan_name i)
    && not (i.spec.plan_execution.plan_name == cleanup_plan_name)

abbrev pub with_execution : PlanExecution → Instance → Instance
with_execution e i = record i { spec = record i.spec { plan_execution = e } }

-- The instance, with 'cleanup' scheduled if it has to be. The plan's name and UID are its fields.
unfoldable pub scheduled_plan : String → Instance → OperatorVersion → Instance
unfolding has_to_schedule_cleanup_after_deletion
scheduled_plan new_uid i ov =
    if has_to_schedule_cleanup_after_deletion i ov
    then with_execution
        (record { plan_name = cleanup_plan_name; uid = new_uid; status = never_run }) i
    else i

unfoldable pub ensure_readiness_initialized : Packages → Instance → Instance
ensure_readiness_initialized packages i =
    let plan = i.spec.plan_execution.plan_name in
    if plan == deploy_plan_name || plan == upgrade_plan_name || plan == update_plan_name
    then set_readiness packages plan_in_progress "" i
    else i

abbrev pub fresh_step : String → StepStatus
fresh_step name = record { name = name; message = ""; status = never_run }

abbrev pub fresh_phase : String → PhaseStatus
fresh_phase name = record { name = name; status = never_run; message = ""; steps = [] }

abbrev pub fresh_plan : String → PlanStatus
fresh_plan name = record {
  name = name;
  status = never_run;
  message = "";
  last_updated_timestamp = none;
  phases = [];
  uid = "";
}

abbrev pub step_or_fresh : String → Option StepStatus → StepStatus
step_or_fresh name none = fresh_step name
step_or_fresh name (some s) = s

unfoldable pub rebuild_steps : PhaseStatus → List Step → List StepStatus
rebuild_steps p [] = []
rebuild_steps p (st ∷ rest) =
    step_or_fresh st.name (get_step_status st.name p) ∷ rebuild_steps p rest

abbrev pub rebuild_phase : Phase → PhaseStatus → PhaseStatus
rebuild_phase ph p = record p { steps = rebuild_steps p ph.steps }

-- The phases of the old status, after the write through the pointer that the search returned.
abbrev pub written : Phase → List PhaseStatus → List PhaseStatus
written ph old = modify_phase ph.name (rebuild_phase ph) old

abbrev pub phase_or_fresh : Phase → Option PhaseStatus → PhaseStatus
phase_or_fresh ph none = rebuild_phase ph (fresh_phase ph.name)
phase_or_fresh ph (some p) = rebuild_phase ph p

unfoldable pub rebuild_phases : List PhaseStatus → List Phase → List PhaseStatus
unfolding rebuild_steps find_phase modify_phase
rebuild_phases old [] = []
rebuild_phases old (ph ∷ rest) =
    phase_or_fresh ph (find_phase ph.name old) ∷ rebuild_phases (written ph old) rest

abbrev pub plan_or_fresh : String → Option PlanStatus → PlanStatus
plan_or_fresh name none = fresh_plan name
plan_or_fresh name (some p) = p

abbrev pub rebuild_plan : Plan → PlanStatus → PlanStatus
rebuild_plan plan s = record s { phases = rebuild_phases s.phases plan.phases }

-- The loop over the plans of the operator version.
unfoldable pub rebuild_plans :
    List (String × PlanStatus) → List (String × Plan) → List (String × PlanStatus)
unfolding rebuild_phases lookup insert
rebuild_plans statuses [] = statuses
rebuild_plans statuses ((name, plan) ∷ rest) =
    rebuild_plans
      (insert name (rebuild_plan plan (plan_or_fresh name (lookup name statuses))) statuses) rest

unfoldable pub ensure_plan_status_initialized : Instance → OperatorVersion → Instance
unfolding rebuild_plans
ensure_plan_status_initialized i ov = record i {
  status = record i.status { plan_status = rebuild_plans i.status.plan_status ov.plans };
}

abbrev pub reset_if_new : Packages → Instance → String → ℕ → PlanStatus → Instance × PlanStatus
reset_if_new packages i uid now ps =
    if ps.uid == uid then (i, ps) else reset_plan_status packages ps uid now i

unfoldable pub reset_plan_status_if_plan_is_new :
    Packages → Instance → String → String → ℕ → Result Error (Instance × PlanStatus)
unfolding reset_plan_status find_plan
reset_plan_status_if_plan_is_new packages i plan uid now = elim (plan_status plan i) [
  | none ↦ err (plain_error (concat ("failed to find planStatus for plan '" ∷ plan ∷ "'" ∷ [])))
  | some ps ↦ ok (reset_if_new packages i uid now ps)
]
