-- ===== src/Controller/Prepare.antt =====
-- pkg/controller/instance/instance_controller.go: `preparePlanExecution` with `ParamsMap` and
-- `PipesMap`; pkg/util/convert/convert.go: `UnwrapParamValue`.
use kudo.Prelude.{
  String, true, false, List, [], ◌∷◌, Option, none, some, Result, ok, err, ◌>>=◌, ◌==◌,
  if◌then◌else◌, concat,
}
use kudo.Prelude.Maps.{lookup, insert, has_key}
use kudo.Api.PlanStatus.{PlanStatus}
use kudo.Api.Operator.{
  ParameterType, string, array, map_type, Parameter, PipeSpec, Task, Step, Phase, Plan,
  OperatorVersion,
}
use kudo.Api.Instance.{Instance}
use kudo.Engine.{Error, Metadata, fatal_error_with, execution_error_pointer}
use kudo.Tasks.Run.{Value, text, document, TaskMetadata}
use kudo.Tasks.Names.{pipe_artifact_name}
use kudo.Workflow.Loop.{ActivePlan, find_task}

-- The loop over the pipes of a task.
unfoldable pub add_pipes :
    TaskMetadata → List PipeSpec → List (String × String) → Result String (List (String × String))
unfolding has_key insert
add_pipes meta [] pipes = ok pipes
add_pipes meta (p ∷ rest) pipes = elim (has_key p.key pipes) [
  | true ↦ err (concat ("duplicated pipe key " ∷ p.key ∷ []))
  | false ↦ add_pipes meta rest (insert p.key (pipe_artifact_name meta p.key) pipes)
]

abbrev pub pipes_of : Option Task → List PipeSpec
pipes_of none = []
pipes_of (some t) = if t.kind == "Pipe" then t.spec.pipe else []

module _ (plan_name : String) (tasks : List Task) (emeta : Metadata) where
  abbrev pub pipe_metadata : Phase → Step → String → TaskMetadata
  pipe_metadata ph st tn = record {
    engine = emeta;
    plan_name = plan_name;
    plan_uid = "";
    phase_name = ph.name;
    step_name = st.name;
    task_name = tn;
  }

  unfoldable pub add_task_pipes :
      Phase → Step → List String → List (String × String) → Result String (List (String × String))
  unfolding add_pipes find_task
  add_task_pipes ph st [] pipes = ok pipes
  add_task_pipes ph st (tn ∷ rest) pipes =
      add_pipes (pipe_metadata ph st tn) (pipes_of (find_task tn tasks)) pipes
      >>= add_task_pipes ph st rest

  unfoldable pub add_step_pipes :
      Phase → List Step → List (String × String) → Result String (List (String × String))
  unfolding add_task_pipes
  add_step_pipes ph [] pipes = ok pipes
  add_step_pipes ph (st ∷ rest) pipes =
      add_task_pipes ph st st.tasks pipes >>= add_step_pipes ph rest

  unfoldable pub add_phase_pipes :
      List Phase → List (String × String) → Result String (List (String × String))
  unfolding add_step_pipes
  add_phase_pipes [] pipes = ok pipes
  add_phase_pipes (ph ∷ rest) pipes = add_step_pipes ph ph.steps pipes >>= add_phase_pipes rest

  abbrev pub pipes_map : Plan → Result String (List (String × String))
  pipes_map plan = add_phase_pipes plan.phases []

-- `yaml.Unmarshal` into an `interface{}` and into a slice.
pub record Yaml (Y : Type 0) : Type 0 where
  pub to_yaml_map : String → Result String Y
  pub to_yaml_array : String → Result String Y

abbrev pub string_value : Option String → String
string_value none = ""
string_value (some s) = s

-- An error of `preparePlanExecution` is stored as a pointer.
abbrev pub prepare_error : String → String → String → Error
prepare_error what cause event =
    execution_error_pointer (fatal_error_with (concat ("fatal error: " ∷ what ∷ cause ∷ []))) event

module _ {Y : Type 0} (yaml : Yaml Y) where
  abbrev as_document : Result String Y → Result String (Value Y)
  as_document r = r >>= λ y. ok (document y)

  unfoldable pub unwrap_param_value : Option String → ParameterType → Result String (Value Y)
  unwrap_param_value wrapped map_type = as_document (yaml.to_yaml_map (string_value wrapped))
  unwrap_param_value wrapped array = as_document (yaml.to_yaml_array (string_value wrapped))
  unwrap_param_value wrapped string = ok (text (string_value wrapped))
  unwrap_param_value wrapped _ = ok (text (string_value wrapped))

  abbrev pub value_or_default : Option String → Parameter → Option String
  value_or_default (some v) p = some v
  value_or_default none p = p.default

  -- The loop of `ParamsMap`, over what it has put into the map.
  unfoldable pub add_params :
      List (String × String)
      → List Parameter
      → List (String × Value Y)
      → Result String (List (String × Value Y))
  unfolding unwrap_param_value lookup insert
  add_params values [] params = ok params
  add_params values (p ∷ rest) params =
      unwrap_param_value (value_or_default (lookup p.name values) p) p.value_type >>= λ v.
      add_params values rest (insert p.name v params)

  abbrev pub params_map : Instance → OperatorVersion → Result String (List (String × Value Y))
  params_map i ov = add_params i.spec.parameters ov.parameters []

  abbrev pub prepare_pipes :
      Plan
      → PlanStatus
      → OperatorVersion
      → List (String × Value Y)
      → Result String (List (String × String))
      → Result Error (ActivePlan Y)
  prepare_pipes plan ps ov params (err e) =
      err (prepare_error "could not make task pipes: " e "InvalidPlan")
  prepare_pipes plan ps ov params (ok pipes) = ok (record {
    name = ps.name;
    plan_status = ps;
    spec = plan;
    tasks = ov.tasks;
    templates = ov.templates;
    params = params;
    pipes = pipes;
  })

  abbrev pub prepare_params :
      Plan
      → PlanStatus
      → OperatorVersion
      → Metadata
      → Result String (List (String × Value Y))
      → Result Error (ActivePlan Y)
  prepare_params plan ps ov meta (err e) =
      err (prepare_error "could not parse parameters: " e "InvalidParams")
  prepare_params plan ps ov meta (ok params) =
      prepare_pipes plan ps ov params (pipes_map ps.name ov.tasks meta plan)

  unfoldable pub prepare_plan_execution :
      Instance → OperatorVersion → PlanStatus → Metadata → Result Error (ActivePlan Y)
  unfolding lookup add_params add_phase_pipes
  prepare_plan_execution i ov ps meta = elim (lookup ps.name ov.plans) [
    | none ↦ err (
        prepare_error "could not find required plan: " (concat ("'" ∷ ps.name ∷ "'" ∷ []))
          "InvalidPlan")
    | some plan ↦ prepare_params plan ps ov meta (params_map i ov)
  ]
