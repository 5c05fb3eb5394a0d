-- ===== src/Api/Instance.antt =====
-- pkg/apis/kudo/v1beta1/instance_types.go and instance_types_helpers.go: an instance and its methods.
-- A nil map is an empty one. A method that writes through its receiver returns the new instance.
use kudo.Prelude.{
  ℕ, String, Bool, true, false, not, ◌&&◌, ◌||◌, List, [], ◌∷◌, ◌++◌, Option, none, some, ◌==◌, ltb,
  if◌then◌else◌, is_empty, map,
}
use kudo.Prelude.Maps.{has_key}
use kudo.Libraries.{Packages, Condition}
use kudo.Api.ExecutionStatus.{
  ExecutionStatus, pending, is_running, is_finished, is_never_run, is_fatal,
}
use kudo.Api.StepStatus
use kudo.Api.PhaseStatus
use kudo.Api.PhaseStatus.{PhaseStatus}
use kudo.Api.PlanStatus.{PlanStatus}
use kudo.Api.Operator.{ObjectReference, OperatorVersion}

pub record PlanExecution : Type 0 where
  pub plan_name : String
  pub uid : String
  pub status : ExecutionStatus

pub record InstanceSpec : Type 0 where
  pub operator_version : ObjectReference
  pub parameters : List (String × String)
  pub plan_execution : PlanExecution

pub record InstanceStatus : Type 0 where
  pub plan_status : List (String × PlanStatus)
  pub conditions : List Condition

-- `TypeMeta` and `ObjectMeta`: the fields that the program reads. An owner is known by its kind.
pub record ObjectMeta : Type 0 where
  pub kind : String
  pub name : String
  pub namespace : String
  pub finalizers : List String
  pub owner_kinds : List String
  pub deletion_timestamp : Option ℕ

pub record Instance : Type 0 where
  pub metadata : ObjectMeta
  pub spec : InstanceSpec
  pub status : InstanceStatus

abbrev pub deploy_plan_name : String
deploy_plan_name = "deploy"

abbrev pub upgrade_plan_name : String
upgrade_plan_name = "upgrade"

abbrev pub update_plan_name : String
update_plan_name = "update"

abbrev pub cleanup_plan_name : String
cleanup_plan_name = "cleanup"

abbrev pub instance_cleanup_finalizer_name : String
instance_cleanup_finalizer_name = "kudo.dev.instance.cleanup"

-- The loops over the map of plan statuses.
unfoldable pub first_running : List (String × PlanStatus) → Option PlanStatus
first_running [] = none
first_running ((k, p) ∷ rest) = if is_running p.status then some p else first_running rest

abbrev pub get_plan_in_progress : Instance → Option PlanStatus
get_plan_in_progress i = first_running i.status.plan_status

unfoldable pub all_never_run : List (String × PlanStatus) → Bool
all_never_run [] = true
all_never_run ((k, p) ∷ rest) = if is_never_run p.status then all_never_run rest else false

abbrev pub no_plan_ever_executed : Instance → Bool
no_plan_ever_executed i = all_never_run i.status.plan_status

abbrev later : Option ℕ → Option ℕ → Bool
later none b = false
later (some a) none = false
later (some a) (some b) = ltb b a

unfoldable pub was_run_after : PlanStatus → PlanStatus → Bool
was_run_after p1 p2 =
    if is_never_run p1.status || is_never_run p2.status
    then false
    else later p1.last_updated_timestamp p2.last_updated_timestamp

abbrev newer : PlanStatus → Option PlanStatus → Option PlanStatus
newer p none = some p
newer p (some last) = if was_run_after p last then some p else some last

unfoldable pub last_executed : Option PlanStatus → List (String × PlanStatus) → Option PlanStatus
unfolding was_run_after
last_executed last [] = last
last_executed last ((k, p) ∷ rest) =
    last_executed (if is_never_run p.status then last else newer p last) rest

unfoldable pub get_last_executed_plan_status : Instance → Option PlanStatus
unfolding all_never_run first_running last_executed
get_last_executed_plan_status i =
    if no_plan_ever_executed i then none else elim (get_plan_in_progress i) [
      | some p ↦ some p
      | none ↦ last_executed none i.status.plan_status
    ]

unfoldable pub find_plan : String → List (String × PlanStatus) → Option PlanStatus
find_plan plan [] = none
find_plan plan ((k, p) ∷ rest) = if p.name == plan then some p else find_plan plan rest

-- The method `PlanStatus`.
abbrev pub plan_status : String → Instance → Option PlanStatus
plan_status plan i = find_plan plan i.status.plan_status

abbrev pub is_deleting : Instance → Bool
is_deleting i = elim i.metadata.deletion_timestamp [ none ↦ false | some t ↦ true ]

abbrev pub has_no_finalizers : Instance → Bool
has_no_finalizers i = is_empty i.metadata.finalizers

abbrev pub operator_version_namespace : Instance → String
operator_version_namespace i =
    if i.spec.operator_version.namespace == ""
    then i.metadata.namespace
    else i.spec.operator_version.namespace

unfoldable pub has_kind : String → List String → Bool
has_kind kind [] = false
has_kind kind (k ∷ rest) = if k == kind then true else has_kind kind rest

abbrev pub is_child_instance : Instance → Bool
is_child_instance i = has_kind i.metadata.kind i.metadata.owner_kinds

abbrev pub is_top_level_instance : Instance → Bool
is_top_level_instance i = not (is_child_instance i)

pub data ReadinessType : Type 0 where
  plan_in_progress plan_in_fatal_error resource_not_ready resources_ready : ReadinessType

abbrev condition_status : ReadinessType → String
condition_status resources_ready = "True"
condition_status resource_not_ready = "False"
condition_status plan_in_fatal_error = "Unknown"
condition_status plan_in_progress = "Unknown"

abbrev reason_text : ReadinessType → String
reason_text plan_in_progress = "PlanInProgress"
reason_text plan_in_fatal_error = "PlanInFatalError"
reason_text resource_not_ready = "ResourceNotReady"
reason_text resources_ready = "ResourcesReady"

abbrev pub ready_condition : ReadinessType → String → Condition
ready_condition reason msg = record {
  type = "Ready";
  status = condition_status reason;
  reason = reason_text reason;
  message = msg;
}

abbrev pub plan_exists : String → OperatorVersion → Bool
plan_exists plan ov = has_key plan ov.plans

abbrev pub cleanup_plan_exists : OperatorVersion → Bool
cleanup_plan_exists ov = plan_exists cleanup_plan_name ov

unfoldable pub select_plan : List String → OperatorVersion → Option String
unfolding has_key
select_plan [] ov = none
select_plan (plan ∷ rest) ov = if has_key plan ov.plans then some plan else select_plan rest ov

-- The plan statuses after the loop of `UpdateInstanceStatus`, and whether it met the plan.
unfoldable pub put_plan : PlanStatus → List (String × PlanStatus) → List (String × PlanStatus)
put_plan ps [] = []
put_plan ps ((k, v) ∷ rest) = (k, if v.name == ps.name then ps else v) ∷ put_plan ps rest

unfoldable pub meets_plan : PlanStatus → List (String × PlanStatus) → Bool
meets_plan ps [] = false
meets_plan ps ((k, v) ∷ rest) = if v.name == ps.name then true else meets_plan ps rest

abbrev pub reset_phase : PhaseStatus → PhaseStatus
reset_phase p = PhaseStatus.set pending (record p { steps = map (StepStatus.set pending) p.steps })

abbrev pub reset_plan : String → PlanStatus → PlanStatus
reset_plan uid ps = record ps { uid = uid; status = pending; phases = map reset_phase ps.phases }

abbrev pub never_ran : Option PlanStatus → Bool
never_ran none = true
never_ran (some p) = is_never_run p.status

abbrev pub may_remove : Option PlanStatus → Bool
may_remove none = true
may_remove (some p) = is_finished p.status

module _ (packages : Packages) where
  open packages use {contains_string, filter_string, set_status_condition}

  abbrev pub set_readiness : ReadinessType → String → Instance → Instance
  set_readiness reason msg i = record i {
    status = record i.status {
      conditions = set_status_condition i.status.conditions (ready_condition reason msg);
    };
  }

  -- The readiness that the status of the plan's execution brings about.
  abbrev pub settle_readiness : ExecutionStatus → Instance → Instance
  settle_readiness s i =
      let j = if is_finished s then set_readiness resources_ready "" i else i in
      if is_fatal s then set_readiness plan_in_fatal_error "" j else j

  -- The new instance, and the plan status, whose timestamp is written if the instance has the plan.
  unfoldable pub update_instance_status : PlanStatus → ℕ → Instance → Instance × PlanStatus
  unfolding put_plan meets_plan
  update_instance_status ps now i =
      let ps' = record ps { last_updated_timestamp = some now } in
      let met = meets_plan ps i.status.plan_status in
      let i' = record i {
        status = record i.status { plan_status = put_plan ps' i.status.plan_status };
        spec = record i.spec {
          plan_execution = record i.spec.plan_execution {
            status = if met then ps.status else i.spec.plan_execution.status;
          };
        };
      } in
      (settle_readiness i'.spec.plan_execution.status i', if met then ps' else ps)

  unfoldable pub reset_plan_status : PlanStatus → String → ℕ → Instance → Instance × PlanStatus
  unfolding update_instance_status
  reset_plan_status ps uid now i = update_instance_status (reset_plan uid ps) now i

  abbrev pub has_cleanup_finalizer : Instance → Bool
  has_cleanup_finalizer i = contains_string i.metadata.finalizers instance_cleanup_finalizer_name

  unfoldable pub try_add_finalizer : Instance → Instance × Bool
  unfolding find_plan
  try_add_finalizer i =
      if not (has_cleanup_finalizer i) && never_ran (plan_status cleanup_plan_name i)
      then (
        record i {
          metadata = record i.metadata {
            finalizers = i.metadata.finalizers ++ instance_cleanup_finalizer_name ∷ [];
          };
        },
        true,
      )
      else (i, false)

  abbrev pub remove : List String → String → List String
  remove values s = filter_string values (λ str. not (str == s))

  unfoldable pub try_remove_finalizer : Instance → Instance × Bool
  unfolding find_plan
  try_remove_finalizer i =
      if has_cleanup_finalizer i && may_remove (plan_status cleanup_plan_name i)
      then (
        record i {
          metadata = record i.metadata {
            finalizers = remove i.metadata.finalizers instance_cleanup_finalizer_name;
          };
        },
        true,
      )
      else (i, false)
