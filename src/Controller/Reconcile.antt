-- ===== src/Controller/Reconcile.antt =====
-- pkg/controller/instance/instance_controller.go: `Reconcile`, `updateInstance`, `handleError` and
-- `computeTheReconcileResult`. The cluster is a state `W`. What the API server, the event recorder
-- and the clock do to it, and what other packages answer, is the record `Platform`.
use kudo.Prelude.{
  String, Bool, not, ◌&&◌, ◌||◌, [], ◌∷◌, Option, none, some, Result, ok, err, ◌==◌, if◌then◌else◌,
  concat,
}
use kudo.Libraries.{Packages, Condition}
use kudo.Api.ExecutionStatus.{fatal_error, pending, is_terminal, status_eq, status_text}
use kudo.Api.PlanStatus
use kudo.Api.PlanStatus.{PlanStatus}
use kudo.Api.Operator.{OperatorVersion}
use kudo.Api.Instance.{
  Instance, InstanceSpec, InstanceStatus, ObjectMeta, is_deleting, has_no_finalizers, set_readiness,
  resources_ready, resource_not_ready, operator_version_namespace, update_instance_status,
  try_remove_finalizer,
}
use kudo.Engine.{
  Error, Wrapper, plain, by_value, by_pointer, Metadata, plain_error, as_execution_error,
}
use kudo.Tasks.Run.{Cluster}
use kudo.Health.Readiness.{Lists, is_ready}
use kudo.Workflow.Loop.{ActivePlan, Execution}
use kudo.Workflow.Execute.{execute}
use kudo.Controller.Plans.{
  scheduled_plan, ensure_readiness_initialized, ensure_plan_status_initialized,
  reset_plan_status_if_plan_is_new,
}
use kudo.Controller.Backoff.{RequeueAfter, never, compute_the_reconcile_result}
use kudo.Controller.InCluster.{Operators, resolve_dependencies}
use kudo.Controller.Prepare.{Yaml, prepare_plan_execution}

pub data GetError : Type 0 where
  not_found : GetError
  other_error : Error → GetError

pub record Platform (Y W : Type 0) : Type 1 where
  pub packages : Packages
  pub yaml : Yaml Y
  pub cluster : Cluster Y W
  pub new_uuid : W → String
  pub get_instance : String → String → W → Result GetError Instance
  -- `client.Update` and `client.Status().Update`: the object as the server returns it, or an error.
  pub update : Instance → W → Result Error Instance × W
  pub update_status : Instance → W → Result Error Instance × W
  -- The event recorder: the type, the reason and the message.
  pub event : String → String → String → Instance → W → W
  -- The resources in the cluster, and the operators in it.
  pub lists : Lists W
  pub operators : Operators W
  -- `reflect.DeepEqual`.
  pub spec_equal : InstanceSpec → InstanceSpec → Bool
  pub metadata_equal : ObjectMeta → ObjectMeta → Bool
  pub condition_equal : Option Condition → Option Condition → Bool

pub record Reconciled (W : Type 0) : Type 0 where
  pub result : RequeueAfter
  pub error : Option Error
  pub world : W

module _ {Y W : Type 0} (platform : Platform Y W) where
  open platform use {packages, yaml, cluster, new_uuid, event}

  abbrev status_failure :
      Instance → Instance → Result Error Instance × W → (Instance × Option Error) × W
  status_failure i i' (ok j, w) = ((j, none), w)
  status_failure i i' (err e, w) =
      if is_deleting i' && has_no_finalizers i' then ((i', none), w) else ((i', some e), w)

  abbrev update_status_of : Instance → W → (Instance × Option Error) × W
  update_status_of i w = status_failure i i (platform.update_status i w)

  -- The server's answer to the update of the spec, with the status that is still to be written.
  abbrev after_update :
      InstanceStatus → Instance → Result Error Instance × W → (Instance × Option Error) × W
  after_update s i (err e, w) = ((i, some e), w)
  after_update s i (ok j, w) = update_status_of (record j { status = s }) w

  -- The instance, the error if any, and the cluster.
  unfoldable pub update_instance : Instance → Instance → W → (Instance × Option Error) × W
  unfolding try_remove_finalizer
  update_instance i old w =
      let i' = (try_remove_finalizer packages i).0 in
      if not (platform.spec_equal i'.spec old.spec)
        || not (platform.metadata_equal i'.metadata old.metadata)
      then after_update i'.status i' (platform.update i' w)
      else update_status_of i' w

  abbrev event_name : Wrapper → String
  event_name plain = ""
  event_name (by_value name) = name
  event_name (by_pointer name) = name

  abbrev pub retry : Error → Instance → W → Option Error × W
  retry e i w =
      if as_execution_error e.wrapper
      then (if e.fatal then none else some e, event "Warning" (event_name e.wrapper) e.text i w)
      else (some e, w)

  abbrev pub handle_updated : Error → (Instance × Option Error) × W → Option Error × W
  handle_updated e ((i, some ce), w) = (some ce, w)
  handle_updated e ((i, none), w) = retry e i w

  -- The error to be retried, if any.
  unfoldable pub handle_error : Error → Instance → Instance → W → Option Error × W
  unfolding update_instance
  handle_error e i old w = handle_updated e (update_instance i old w)

  abbrev give_up : Option Error × W → Reconciled W
  give_up (e, w) = record { result = never; error = e; world = w }

  abbrev ready_condition_of : Instance → Option Condition
  ready_condition_of i = packages.find_status_condition i.status.conditions "Ready"

  abbrev readiness_changed : Instance → Instance → Bool
  readiness_changed a b =
      not (platform.condition_equal (ready_condition_of a) (ready_condition_of b))

  abbrev with_readiness : Bool × String → Instance → Instance
  with_readiness (ready, msg) i =
      set_readiness packages (if ready then resources_ready else resource_not_ready) msg i

  -- No plan is scheduled: only the readiness is brought up to date.
  abbrev set_readiness_on : Instance → Instance → W → Result Error (Bool × String) → Reconciled W
  set_readiness_on i old w (err e) = record { result = never; error = some e; world = w }
  set_readiness_on i old w (ok r) =
      let i' = with_readiness r i in
      if readiness_changed old i'
      then (let ((j, e), w') = update_instance i' old w in
          record { result = never; error = e; world = w' })
      else record { result = never; error = none; world = w }

  unfoldable pub reconcile_readiness : Instance → Instance → W → Reconciled W
  unfolding update_instance is_ready
  reconcile_readiness i old w = set_readiness_on i old w (is_ready platform.lists i w)

  abbrev pub metadata_of : Instance → OperatorVersion → Metadata
  metadata_of i ov = record {
    instance_name = i.metadata.name;
    instance_namespace = i.metadata.namespace;
    operator_name = ov.operator.name;
    operator_version_name = ov.name;
    operator_version = ov.version;
    app_version = ov.app_version;
  }

  abbrev requeue : Instance → W → Option RequeueAfter → Option (Reconciled W)
  requeue i w none = none
  requeue i w (some r) = some (record { result = r; error = none; world = w })

  abbrev finished_event : PlanStatus → Instance → W → W
  finished_event ps i w =
      if is_terminal i.spec.plan_execution.status
      then event "Normal" "PlanFinished"
          (concat (
            "Execution of plan " ∷ ps.name ∷ " finished with status " ∷ status_text ps.status ∷ []))
          i w
      else w

  abbrev finish : PlanStatus → (Instance × Option Error) × W → Option (Reconciled W)
  finish ps ((i, some e), w) = some (record { result = never; error = some e; world = w })
  finish ps ((i, none), w) =
      let w' = finished_event ps i w in
      requeue i w' (compute_the_reconcile_result i (cluster.now w'))

  abbrev update_after_execution :
      Instance → Instance → PlanStatus → W → Option Error → Option (Reconciled W)
  update_after_execution i old ps w (some e) = some (give_up (handle_error e i old w))
  update_after_execution i old ps w none = finish ps (update_instance i old w)

  -- 4. The instance and its status after the execution.
  unfoldable pub after_execution : Instance → Instance → Execution W → Option (Reconciled W)
  unfolding update_instance_status handle_error update_instance compute_the_reconcile_result
  after_execution i old x =
      let i' = (update_instance_status packages x.status (cluster.now x.world) i).0 in
      update_after_execution i' old x.status x.world x.error

  -- 3. The execution of the scheduled plan.
  abbrev execute_plan :
      Instance
      → Instance
      → OperatorVersion
      → W
      → Result Error (ActivePlan Y)
      → Option (Reconciled W)
  execute_plan i old ov w (err e) = some (give_up (handle_error e i old w))
  execute_plan i old ov w (ok active) =
      after_execution i old (execute cluster (metadata_of i ov) active w)

  abbrev resolved :
      Instance → Instance → PlanStatus → W → Result Error OperatorVersion → Option (Reconciled W)
  resolved i old ps w (err e) =
      let ps' = PlanStatus.set_with_message (cluster.now w) fatal_error e.text ps in
      let i' = (update_instance_status packages ps' (cluster.now w) i).0 in
      some (give_up (handle_error e i' old w))
  resolved i old ps w (ok ov) =
      execute_plan i old ov w (prepare_plan_execution yaml i ov ps (metadata_of i ov))

  abbrev started_event : PlanStatus → Instance → W → W
  started_event ps i w =
      if status_eq ps.status pending
      then event "Normal" "PlanStarted"
          (concat ("Execution of plan " ∷ i.spec.plan_execution.plan_name ∷ " started" ∷ [])) i w
      else w

  abbrev begin :
      Instance → OperatorVersion → W → Result Error (Instance × PlanStatus) → Option (Reconciled W)
  begin old ov w (err e) = some (record { result = never; error = some e; world = w })
  begin old ov w (ok (i, ps)) =
      let w' = started_event ps i w in
      resolved i old ps w' (resolve_dependencies packages platform.operators i ov w')

  abbrev prepare : Instance → OperatorVersion → Instance
  prepare i ov = ensure_plan_status_initialized (ensure_readiness_initialized packages i) ov

  -- 2. The plan that is scheduled, if there is one.
  unfoldable pub reconcile_plan : Instance → OperatorVersion → W → Option (Reconciled W)
  unfolding scheduled_plan reconcile_readiness ensure_readiness_initialized
      ensure_plan_status_initialized reset_plan_status_if_plan_is_new update_instance_status
      PlanStatus.set_with_message handle_error prepare_plan_execution after_execution
      resolve_dependencies
  reconcile_plan old ov w =
      let i = scheduled_plan (new_uuid w) old ov in
      let plan = i.spec.plan_execution.plan_name in
      if plan == ""
      then some (reconcile_readiness i old w)
      else begin old ov w (
          reset_plan_status_if_plan_is_new packages (prepare i ov) plan i.spec.plan_execution.uid
            (cluster.now w))

  abbrev with_version : Instance → W → Result Error OperatorVersion → Option (Reconciled W)
  with_version i w (ok ov) = reconcile_plan i ov w
  with_version i w (err e) =
      let e' = plain_error (
        concat (
          "InstanceController: Error getting operatorVersion " ∷ i.spec.operator_version.name
          ∷ " for instance " ∷ i.metadata.namespace ∷ "/" ∷ i.metadata.name ∷ ": " ∷ e.text
          ∷ [])) in
      some (record {
        result = never;
        error = some e';
        world = event "Warning" "InvalidOperatorVersion" e'.text i w;
      })

  abbrev with_found_instance : W → Result GetError Instance → Option (Reconciled W)
  with_found_instance w (err not_found) = some (record { result = never; error = none; world = w })
  with_found_instance w (err (other_error e)) =
      some (record { result = never; error = some e; world = w })
  with_found_instance w (ok i) = with_version i w (
      platform.operators.get_operator_version_by_name i.spec.operator_version.name
        (operator_version_namespace i) w)

  -- 1. The current state. `none` is a panic.
  unfoldable pub reconcile : String → String → W → Option (Reconciled W)
  unfolding reconcile_plan
  reconcile name namespace w = with_found_instance w (platform.get_instance name namespace w)
