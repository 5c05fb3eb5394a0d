-- ===== src/Renderer/Variables.antt =====
-- pkg/engine/renderer/engine.go: `VariableMap` and its builders. The template engine is Go's
-- text/template with the functions of sprig: `Render` is a parameter of the models that call it.
use kudo.Prelude.{String, List, [], Result}
use kudo.Prelude.Maps.{insert}
use kudo.Tasks.Run.{Value, TaskMetadata}

-- An `interface{}` of the map.
pub data Variable (Y : Type 0) : Type 0 where
  word : String → Variable Y
  params : List (String × Value Y) → Variable Y
  param_strings : List (String × String) → Variable Y
  pipes : List (String × String) → Variable Y

abbrev pub VariableMap : Type 0 → Type 0
VariableMap Y = List (String × Variable Y)

module _ {Y : Type 0} where
  abbrev pub new_variable_map : VariableMap Y
  new_variable_map = []

  unfoldable pub with_instance :
      (operator_name instance_name namespace app_version operator_version : String)
      → VariableMap Y
      → VariableMap Y
  unfolding insert
  with_instance operator_name instance_name namespace app_version operator_version m =
      let m = insert "OperatorName" (word operator_name) m in
      let m = insert "Name" (word instance_name) m in
      let m = insert "Namespace" (word namespace) m in
      let m = insert "AppVersion" (word app_version) m in
      insert "OperatorVersion" (word operator_version) m

  unfoldable pub with_defaults : VariableMap Y → VariableMap Y
  unfolding with_instance
  with_defaults m =
      let m = with_instance "OperatorName" "Name" "Namespace" "AppVersion" "OperatorVersion" m in
      let m = insert "PlanName" (word "PlanName") m in
      let m = insert "PhaseName" (word "PhaseName") m in insert "StepName" (word "StepName") m

  unfoldable pub with_metadata : TaskMetadata → VariableMap Y → VariableMap Y
  unfolding insert
  with_metadata meta m =
      let m = insert "OperatorName" (word meta.engine.operator_name) m in
      let m = insert "Name" (word meta.engine.instance_name) m in
      let m = insert "Namespace" (word meta.engine.instance_namespace) m in
      let m = insert "AppVersion" (word meta.engine.app_version) m in
      let m = insert "OperatorVersion" (word meta.engine.operator_version) m in
      let m = insert "PlanName" (word meta.plan_name) m in
      let m = insert "PhaseName" (word meta.phase_name) m in
      let m = insert "StepName" (word meta.step_name) m in
      insert "AppVersion" (word meta.engine.app_version) m

  abbrev pub with_parameters : List (String × Value Y) → VariableMap Y → VariableMap Y
  with_parameters parameters = insert "Params" (params parameters)

  abbrev pub with_parameter_strings : List (String × String) → VariableMap Y → VariableMap Y
  with_parameter_strings parameters = insert "Params" (param_strings parameters)

  abbrev pub with_pipes : List (String × String) → VariableMap Y → VariableMap Y
  with_pipes ps = insert "Pipes" (pipes ps)

-- `Engine.Render`: the name, the template and the variables, to the rendered text or an error.
abbrev pub Render : Type 0 → Type 0
Render Y = String → String → VariableMap Y → Result String String
