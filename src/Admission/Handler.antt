-- ===== src/Admission/Handler.antt =====
-- pkg/webhook/instance_admission.go: `Handle`, `handleCreate` and `handleUpdate`. What the decoder,
-- the API server, the JSON encoder, `uuid.NewUUID` and `reflect.DeepEqual` answer are arguments.
use kudo.Prelude.{String, Bool, not, ◌&&◌, Option, none, some, Result, ok, err, ◌==◌, if◌then◌else◌}
use kudo.Libraries.{Packages}
use kudo.Api.ExecutionStatus.{unset, never_run}
use kudo.Api.Operator.{OperatorVersion, reference_eq}
use kudo.Api.Instance.{
  Instance, InstanceSpec, InstanceStatus, PlanExecution, deploy_plan_name, cleanup_plan_exists,
  plan_exists, operator_version_namespace, try_add_finalizer,
}
use kudo.Api.Parameters.{Parsers}
use kudo.Admission.Parameters.{
  Denial, no_deploy_plan, validate_parameters, set_immutable_parameter_defaults,
}
use kudo.Admission.Decision.{admit_update}

-- `bad_request` and `server_error` are the HTTP codes 400 and 500. A patch is made of the new object.
pub data Response : Type 0 where
  allowed : Response
  denied : Denial → Response
  bad_request server_error : String → Response
  patched : Instance → Response

pub record Server : Type 1 where
  pub packages : Packages
  pub parsers : Parsers
  -- `client.Get` of an operator version by name and namespace, the error of `json.Marshal`, and
  -- `uuid.NewUUID`.
  pub get_operator_version_by_name : String → String → Result String OperatorVersion
  pub marshal_error : Instance → Option String
  pub new_uuid : String
  -- `reflect.DeepEqual`.
  pub spec_equal : InstanceSpec → InstanceSpec → Bool
  pub status_equal : InstanceStatus → InstanceStatus → Bool

pub data Operation : Type 0 where
  create update other : Operation

-- The objects of a request, as the decoder returns them.
pub record Request : Type 0 where
  pub operation : Operation
  pub namespace : String
  pub object : Result String Instance
  pub old_object : Result String Instance

module _ (server : Server) where
  open server use {packages, parsers, get_operator_version_by_name, marshal_error, new_uuid}

  abbrev pub get_operator_version : Instance → Result String OperatorVersion
  get_operator_version i =
      get_operator_version_by_name i.spec.operator_version.name (operator_version_namespace i)

  abbrev pub patch_of : Instance → Option String → Response
  patch_of i none = patched i
  patch_of i (some e) = server_error e

  abbrev pub patch : Instance → Response
  patch i = patch_of i (marshal_error i)

  abbrev pub with_execution : PlanExecution → Instance → Instance
  with_execution e i = record i { spec = record i.spec { plan_execution = e } }

  abbrev pub patch_created : Instance → Result Denial (Unit {0}) → Response
  patch_created i (ok u) = patch i
  patch_created i (err d) = denied d

  unfoldable pub create_with : Instance → OperatorVersion → Response
  unfolding try_add_finalizer set_immutable_parameter_defaults
  create_with new ov =
      let new' = if cleanup_plan_exists ov then (try_add_finalizer packages new).0 else new in
      if not (plan_exists deploy_plan_name ov)
      then denied no_deploy_plan
      else (let scheduled =
            with_execution
              (record new'.spec.plan_execution { plan_name = deploy_plan_name; uid = new_uuid })
              new' in
          let complete = set_immutable_parameter_defaults ov scheduled in
          patch_created complete (validate_parameters parsers ov complete))

  abbrev pub in_namespace : String → Instance → Instance
  in_namespace ns i = record i { metadata = record i.metadata { namespace = ns } }

  abbrev pub create_from : Instance → Result String OperatorVersion → Response
  create_from new (err e) = server_error e
  create_from new (ok ov) = create_with new ov

  abbrev pub handle_created : Request → Result String Instance → Response
  handle_created req (err e) = bad_request e
  handle_created req (ok i) =
      let new = in_namespace req.namespace i in create_from new (get_operator_version new)

  unfoldable pub handle_create : Request → Response
  unfolding create_with
  handle_create req = handle_created req req.object

  -- The execution of a plan that was triggered, or none after the empty name.
  abbrev pub triggered_execution : String → PlanExecution
  triggered_execution plan =
      if plan == ""
      then record { plan_name = plan; uid = ""; status = unset }
      else record { plan_name = plan; uid = new_uuid; status = never_run }

  unfoldable pub respond : Result Denial (Option String × Instance) → Response
  respond (err d) = denied d
  respond (ok (none, new)) = allowed
  respond (ok (some plan, new)) = patch (with_execution (triggered_execution plan) new)

  abbrev pub old_version : Instance → Instance → OperatorVersion → Result String OperatorVersion
  old_version old new ov =
      if not (reference_eq old.spec.operator_version new.spec.operator_version)
      then get_operator_version old
      else ok ov

  abbrev pub update_from :
      Instance → Instance → OperatorVersion → Result String OperatorVersion → Response
  update_from old new ov (err e) = server_error e
  update_from old new ov (ok old_ov) = respond (admit_update packages parsers old new ov old_ov)

  abbrev pub update_with : Instance → Instance → Result String OperatorVersion → Response
  update_with old new (err e) = server_error e
  update_with old new (ok ov) = update_from old new ov (old_version old new ov)

  abbrev pub update_instance : Instance → Result String Instance → Response
  update_instance new (err e) = bad_request e
  update_instance new (ok old) =
      if server.spec_equal old.spec new.spec && server.status_equal old.status new.status
      then allowed
      else update_with old new (get_operator_version new)

  abbrev pub handle_updated : Request → Result String Instance → Response
  handle_updated req (err e) = bad_request e
  handle_updated req (ok new) = update_instance new req.old_object

  unfoldable pub handle_update : Request → Response
  unfolding respond admit_update
  handle_update req = handle_updated req req.object

  unfoldable pub handle : Request → Response
  unfolding handle_create handle_update
  handle req = elim req.operation [
    | create ↦ handle_create req
    | update ↦ handle_update req
    | other ↦ allowed
  ]
