-- ===== src/Tasks/KudoOperator.antt =====
-- pkg/engine/task/task_kudo_operator.go: the method `Run` of a task that installs a child operator.
use kudo.Prelude.{
  String, Bool, true, false, List, [], ◌∷◌, Option, none, some, Result, ok, err, concat, ◌==◌,
  if◌then◌else◌,
}
use kudo.Prelude.Maps.{lookup}
use kudo.Engine.{Error, plain_error}
use kudo.Api.ExecutionStatus.{unset}
use kudo.Api.Instance.{InstanceSpec, Instance}
use kudo.Dependencies.Resolve.{operator_version_name}
use kudo.Kudoctl.Params.{ParamFiles, get_parameters_from_file}
use kudo.Prelude
use kudo.Health.Objects.{kudo_instance}
use kudo.Kube.Act.{Act, lift, map_error}
use kudo.Kube.Objects.{ApiError}
use kudo.Renderer.Variables.{Render, new_variable_map, with_instance, with_parameters}
use kudo.Tasks.Tasker.{KudoOperatorTask}
use kudo.Tasks.Run.{Value, TaskMetadata, Context, RunResult, fatal_execution_error}
use kudo.Tasks.Apply.{is_resource_healthy}

-- The packages that the task calls: the template engine, the files of parameters, and the client for
-- instances. `set_owner_reference` makes the resources' owner an owner of the instance; `patch` is
-- given the spec that the merge patch has.
pub record Instances (Y J W : Type 0) : Type 0 where
  pub render_template : Render Y
  pub files : ParamFiles J
  pub set_owner_reference : Instance → W → Result String Instance
  pub get : (name namespace : String) → W → Result ApiError Instance
  pub create : Instance → W → (Option ApiError × Instance) × W
  pub patch : Instance → InstanceSpec → W → (Option ApiError × Instance) × W

unfoldable pub dependency_instance_name :
    (parent_instance_name instance_name operator_name : String) → String
dependency_instance_name parent_instance_name instance_name operator_name =
    if instance_name == ""
    then concat (parent_instance_name ∷ "-" ∷ operator_name ∷ [])
    else instance_name

-- The new instance, before its owner is set. Its labels are left out: no code reads them here.
abbrev pub new_instance :
    (instance_name operator_version_name namespace : String) → List (String × String) → Instance
new_instance instance_name operator_version_name namespace parameters = record {
  metadata = record {
    kind = "Instance";
    name = instance_name;
    namespace = namespace;
    finalizers = [];
    owner_kinds = [];
    deletion_timestamp = none;
  };
  spec = record {
    operator_version = record {
      kind = "";
      namespace = "";
      name = operator_version_name;
      uid = "";
      api_version = "";
      resource_version = "";
      field_path = "";
    };
    parameters = parameters;
    plan_execution = record { plan_name = ""; uid = ""; status = unset };
  };
  status = record { plan_status = []; conditions = [] };
}

-- The instance as the server returned it, or the error of a request.
abbrev pub answered : {W : Type 0} → (Option ApiError × Instance) × W → Result Error Instance × W
answered ((none, i), w) = (ok i, w)
answered ((some e, i), w) = (err (plain_error e.text), w)

-- An error of the health check is dropped.
abbrev pub done_if_healthy : Option Error → RunResult
done_if_healthy none = (true, none)
done_if_healthy (some e) = (false, none)

abbrev pub after_child : Result Error Instance → RunResult
after_child (err e) = (false, some e)
after_child (ok i) = done_if_healthy (is_resource_healthy (kudo_instance i))

module _ {Y J W : Type 0} (m : Instances Y J W) where
  unfoldable pub render_parameters_file :
      (pf pft : String) → TaskMetadata → List (String × Value Y) → Result String String
  unfolding with_instance
  render_parameters_file pf pft meta parameters = m.render_template pf pft (
      with_parameters parameters (
        with_instance meta.engine.operator_name meta.engine.instance_name
          meta.engine.instance_namespace meta.engine.app_version meta.engine.operator_version
          new_variable_map))

  abbrev read_parameters :
      List (String × String) × Option String → Result String (List (String × String))
  read_parameters (params, none) = ok params
  read_parameters (params, some e) = err e

  abbrev expanded : String → Result String String → Result String (List (String × String))
  expanded file (err e) = err (concat ("error expanding parameter file " ∷ file ∷ ": " ∷ e ∷ []))
  expanded file (ok rendered) = read_parameters (get_parameters_from_file m.files file rendered [])

  abbrev from_template :
      String
      → TaskMetadata
      → List (String × Value Y)
      → Option String
      → Result String (List (String × String))
  from_template file meta parameters none =
      err (concat ("error finding parameter file " ∷ file ∷ " in templates" ∷ []))
  from_template file meta parameters (some pft) =
      expanded file (render_parameters_file file pft meta parameters)

  unfoldable pub instance_parameters :
      String
      → List (String × String)
      → TaskMetadata
      → List (String × Value Y)
      → Result String (List (String × String))
  unfolding lookup render_parameters_file get_parameters_from_file
  instance_parameters file templates meta parameters =
      if file == "" then ok [] else from_template file meta parameters (lookup file templates)

  unfoldable pub instance_resource :
      (instance_name operator_version_name namespace : String)
      → List (String × String)
      → W
      → Result String Instance
  instance_resource instance_name operator_version_name namespace parameters w =
      map_error
        (λ (e : String).
          concat ("failed to set resource ownership for the new instance: " ∷ e ∷ []))
        (m.set_owner_reference
          (new_instance instance_name operator_version_name namespace parameters) w)

  abbrev pub create_instance : Instance → Act Error W Instance
  create_instance i w =
      let ((e, o), w') = m.create i w in
      answered ((e, record o { metadata = record o.metadata { kind = i.metadata.kind } }), w')

  abbrev pub patch_instance : Instance → Act Error W Instance
  patch_instance i w = answered (m.patch i i.spec w)

  unfoldable pub apply_read : Instance → Result ApiError Instance → Act Error W Instance
  apply_read new (ok old) = patch_instance new
  apply_read new (err e) =
      if e.not_found
      then create_instance new
      else lift (
          err (
            plain_error (
              concat (
                "failed to check if instance " ∷ new.metadata.namespace ∷ "/" ∷ new.metadata.name
                ∷ " already exists: " ∷ e.text ∷ []))))

  unfoldable pub apply_instance : Instance → String → Act Error W Instance
  unfolding apply_read
  apply_instance new ns w = apply_read new (m.get new.metadata.name ns w) w

  -- The steps 0 to 2.
  unfoldable pub child_instance : KudoOperatorTask → Context Y → W → Result Error Instance
  unfolding instance_parameters instance_resource dependency_instance_name operator_version_name
      fatal_execution_error
  child_instance kt ctx w =
      let fatal = λ (e : String). fatal_execution_error e "TaskRenderingError" ctx.meta in
      Prelude.◌>>=◌
        (map_error fatal
          (instance_parameters kt.parameter_file ctx.templates ctx.meta ctx.parameters))
        λ params. map_error fatal (
          instance_resource
            (dependency_instance_name ctx.meta.engine.instance_name kt.instance_name
              kt.operator_name)
            (operator_version_name kt.operator_name kt.app_version kt.operator_version)
            ctx.meta.engine.instance_namespace params w)

  -- The steps 0 to 3.
  unfoldable pub apply_child : KudoOperatorTask → Context Y → Act Error W Instance
  unfolding child_instance apply_instance
  apply_child kt ctx w = elim (child_instance kt ctx w) [
    | err e ↦ (err e, w)
    | ok i ↦ apply_instance i ctx.meta.engine.instance_namespace w
  ]

  unfoldable pub run_kudo_operator : KudoOperatorTask → Context Y → W → RunResult × W
  unfolding apply_child is_resource_healthy
  run_kudo_operator kt ctx w = let (r, w') = apply_child kt ctx w in (after_child r, w')
