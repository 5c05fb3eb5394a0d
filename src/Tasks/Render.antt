-- ===== src/Tasks/Render.antt =====
-- pkg/engine/task/render.go: what the tasks do with templates before they turn to the cluster.
use kudo.Prelude.{
  String, List, [], ◌∷◌, ◌++◌, none, some, Result, ok, err, ◌>>=◌, concat, if◌then◌else◌,
}
use kudo.Prelude.Maps.{lookup, insert}
use kudo.Engine.{Error}
use kudo.Kube.Act.{Act}
use kudo.Kube.Objects.{Objects, Client}
use kudo.Health.Objects.{Object}
use kudo.Renderer.Variables.{
  Render, VariableMap, new_variable_map, with_metadata, with_parameters, with_pipes,
}
use kudo.Renderer.Yaml.{Decoders, yaml_to_object}
use kudo.Tasks.Run.{TaskMetadata, Context, fatal_execution_error}

-- What the tasks call: the packages of Kubernetes, the template engine, the interface `Enhancer`, and
-- of an object the fields that a health check reads.
pub record Machinery (Y O W : Type 0) : Type 0 where
  pub objects : Objects O
  pub client : Client O W
  pub decoders : Decoders O
  pub render_template : Render Y
  pub enhancer : List O → TaskMetadata → Act Error W (List O)
  pub health_view : O → Object

-- The loop over the names of the resources.
unfoldable pub render_all :
    {Y : Type 0}
    → Render Y
    → VariableMap Y
    → List (String × String)
    → List String
    → List (String × String)
    → Result String (List (String × String))
unfolding lookup insert
render_all render configs templates [] resources = ok resources
render_all render configs templates (rn ∷ rest) resources = elim (lookup rn templates) [
  | none ↦ err (concat ("error finding resource named " ∷ rn ∷ []))
  | some resource ↦ elim (render rn resource configs) [
    | err e ↦ err (concat ("error expanding template " ∷ rn ∷ ": " ∷ e ∷ []))
    | ok rendered ↦ render_all render configs templates rest (insert rn rendered resources)
  ]
]

module _ {Y O W : Type 0} (m : Machinery Y O W) where
  abbrev pub configs_of : Context Y → VariableMap Y
  configs_of ctx =
      with_pipes ctx.pipes
        (with_parameters ctx.parameters (with_metadata ctx.meta new_variable_map))

  unfoldable pub render : List String → Context Y → Result String (List (String × String))
  unfolding render_all with_metadata
  render names ctx = render_all m.render_template (configs_of ctx) ctx.templates names []

  unfoldable pub convert : List (String × String) → Result String (List O)
  unfolding yaml_to_object
  convert [] = ok []
  convert ((name, v) ∷ rest) = elim (yaml_to_object m.decoders v) [
    | err e ↦ err (concat ("fatal error: parsing YAML from " ∷ name ∷ ": " ∷ e ∷ []))
    | ok parsed ↦ convert rest >>= λ later. ok (parsed ++ later)
  ]

  abbrev enhanced : TaskMetadata → Result Error (List O) → Result Error (List O)
  enhanced meta (ok objs) = ok objs
  enhanced meta (err e) =
      err (if e.fatal then fatal_execution_error e.text "TaskEnhancementError" meta else e)

  unfoldable pub enhance : List O → TaskMetadata → Act Error W (List O)
  unfolding fatal_execution_error
  enhance objs meta w = let (r, w') = m.enhancer objs meta w in (enhanced meta r, w')
