-- ===== src/Kudoctl/Convert.antt =====
-- pkg/kudoctl/packages/convert: from the files of a package to what is installed. The texts of the errors are
-- left out.
use kudo.Prelude.{
  String, List, [], ◌∷◌, ◌++◌, Option, none, some, Result, ok, err, ◌>>=◌, ◌==◌, if◌then◌else◌,
  is_empty, concat,
}
use kudo.Prelude.Maps.{has_key}
use kudo.Api.ExecutionStatus.{unset}
use kudo.Api.Operator.{Task, Parameter, ParameterType, OperatorVersion}
use kudo.Api.Instance.{Instance}
use kudo.Dependencies.Resolve.{operator_version_name}
use kudo.Verifier.Files.{PackageParameter, ParamsFile, OperatorFile, Maintainer}
use kudo.Kudoctl.Params.{YamlValue, ParamFiles, null, wrap_param_value}

-- `kudoapi.Operator`
pub record Operator : Type 0 where
  pub name : String
  pub namespace : String
  pub description : String
  pub kudo_version : String
  pub kubernetes_version : String
  pub maintainers : List Maintainer
  pub url : String
  pub namespace_manifest : String

-- An instance to be installed, with its labels.
pub record NewInstance : Type 0 where
  pub labels : List (String × String)
  pub instance : Instance

-- `packages.Resources`
pub record PackageResources : Type 0 where
  pub operator : Operator
  pub operator_version : OperatorVersion
  pub instance : NewInstance

pub data TaskProblem : Type 0 where
  no_parameter : (task : String) → TaskProblem
  no_pipe_files : (task : String) → TaskProblem
  unknown_kind : (kind : String) → TaskProblem
  missing_template : (task resource : String) → TaskProblem

pub data ConvertError : Type 0 where
  no_operator_file : ConvertError
  no_params_file : ConvertError
  invalid_tasks : List TaskProblem → ConvertError
  default_not_converted : (parameter what : String) → ConvertError
  enum_not_converted : (parameter what : String) → ConvertError
  -- The nil pointer to the text of a null value is followed: a panic.
  null_in_enum : ConvertError

-- The resources of a task, and what is wrong with the rest of it.
unfoldable pub task_needs : Task → List String × List TaskProblem
task_needs t =
    if t.kind == "Apply"
    then (t.spec.resources, [])
    else if t.kind == "Delete"
    then (t.spec.resources, [])
    else if t.kind == "Toggle"
    then (t.spec.resources, if t.spec.parameter == "" then no_parameter t.name ∷ [] else [])
    else if t.kind == "Pipe"
    then (t.spec.pod ∷ [], if is_empty t.spec.pipe then no_pipe_files t.name ∷ [] else [])
    else if t.kind == "KudoOperator"
    then (if t.spec.parameter_file == "" then [] else t.spec.parameter_file ∷ [], [])
    else if t.kind == "Dummy"
    then ([], [])
    else ([], unknown_kind t.kind ∷ [])

unfoldable pub missing_templates : String → List (String × String) → List String → List TaskProblem
missing_templates task templates [] = []
missing_templates task templates (r ∷ rest) =
    if has_key r templates
    then missing_templates task templates rest
    else missing_template task r ∷ missing_templates task templates rest

unfoldable pub validate_task : Task → List (String × String) → List TaskProblem
unfolding task_needs missing_templates
validate_task t templates =
    let (resources, problems) = task_needs t in
    problems ++ missing_templates t.name templates resources

unfoldable pub validate_tasks : List Task → List (String × String) → List TaskProblem
unfolding validate_task
validate_tasks [] templates = []
validate_tasks (t ∷ rest) templates = validate_task t templates ++ validate_tasks rest templates

unfoldable pub build_instance_resource : String → String → String → NewInstance
unfolding operator_version_name
build_instance_resource operator_name app_version operator_version = record {
  labels = ("kudo.dev/operator", operator_name) ∷ [];
  instance = record {
    metadata = record {
      kind = "Instance";
      name = concat (operator_name ∷ "-instance" ∷ []);
      namespace = "";
      finalizers = [];
      owner_kinds = [];
      deletion_timestamp = none;
    };
    spec = record {
      operator_version = record {
        kind = "";
        namespace = "";
        name = operator_version_name operator_name app_version operator_version;
        uid = "";
        api_version = "";
        resource_version = "";
        field_path = "";
      };
      parameters = [];
      plan_execution = record { plan_name = ""; uid = ""; status = unset };
    };
    status = record { plan_status = []; conditions = [] };
  };
}

module _ {J : Type 0} (files : ParamFiles J) where
  abbrev or_null : Option (YamlValue J) → YamlValue J
  or_null none = null
  or_null (some v) = v

  abbrev enum_value : String → Result String (Option String) → Result ConvertError String
  enum_value name (err e) = err (enum_not_converted name e)
  enum_value name (ok none) = err null_in_enum
  enum_value name (ok (some s)) = ok s

  unfoldable pub wrap_enum :
      String → ParameterType → List (YamlValue J) → Result ConvertError (List String)
  unfolding wrap_param_value
  wrap_enum name type [] = ok []
  wrap_enum name type (v ∷ rest) = do
    s ← enum_value name (wrap_param_value files v type)
    later ← wrap_enum name type rest
    ok (s ∷ later)

  abbrev wrap_enum_values :
      String
      → ParameterType
      → Option (List (YamlValue J))
      → Result ConvertError (Option (List String))
  wrap_enum_values name type none = ok none
  wrap_enum_values name type (some vs) = wrap_enum name type vs >>= λ ev. ok (some ev)

  abbrev wrap_default : String → Result String (Option String) → Result ConvertError (Option String)
  wrap_default name (err e) = err (default_not_converted name e)
  wrap_default name (ok d) = ok d

  unfoldable pub parameter_to_crd_type :
      PackageParameter (YamlValue J) → Result ConvertError Parameter
  unfolding wrap_enum
  parameter_to_crd_type p = do
    d ← wrap_default p.name (wrap_param_value files (or_null p.default) p.value_type)
    ev ← wrap_enum_values p.name p.value_type p.enum
    ok (record {
      display_name = p.display_name;
      name = p.name;
      description = p.description;
      required = p.required;
      default = d;
      trigger = p.trigger;
      value_type = p.value_type;
      immutable = p.immutable;
      enum = ev;
    })

  unfoldable pub parameters_to_crd_type :
      List (PackageParameter (YamlValue J)) → Result ConvertError (List Parameter)
  unfolding parameter_to_crd_type
  parameters_to_crd_type [] = ok []
  parameters_to_crd_type (p ∷ rest) = do
    converted ← parameter_to_crd_type p
    later ← parameters_to_crd_type rest
    ok (converted ∷ later)

  abbrev operator_of : OperatorFile → Operator
  operator_of o = record {
    name = o.name;
    namespace = "";
    description = o.description;
    kudo_version = o.kudo_version;
    kubernetes_version = o.kubernetes_version;
    maintainers = o.maintainers;
    url = o.url;
    namespace_manifest = o.namespace_manifest;
  }

  abbrev operator_version_of :
      OperatorFile → List (String × String) → List Parameter → OperatorVersion
  operator_version_of o templates parameters = record {
    name = operator_version_name o.name o.app_version o.operator_version;
    namespace = "";
    operator = record {
      kind = "Operator";
      namespace = "";
      name = o.name;
      uid = "";
      api_version = "";
      resource_version = "";
      field_path = "";
    };
    version = o.operator_version;
    app_version = o.app_version;
    templates = templates;
    tasks = o.tasks;
    parameters = parameters;
    plans = o.plans;
  }

  abbrev pub converted :
      List (String × String)
      → OperatorFile
      → ParamsFile (YamlValue J)
      → List TaskProblem
      → Result ConvertError PackageResources
  converted templates o params (e ∷ es) = err (invalid_tasks (e ∷ es))
  converted templates o params [] = parameters_to_crd_type params.parameters >>= λ parameters.
      ok (record {
        operator = operator_of o;
        operator_version = operator_version_of o templates parameters;
        instance = build_instance_resource o.name o.app_version o.operator_version;
      })

  unfoldable pub files_to_resources :
      List (String × String)
      → Option OperatorFile
      → Option (ParamsFile (YamlValue J))
      → Result ConvertError PackageResources
  unfolding parameters_to_crd_type validate_tasks build_instance_resource
  files_to_resources templates none params = err no_operator_file
  files_to_resources templates (some o) none = err no_params_file
  files_to_resources templates (some o) (some params) =
      converted templates o params (validate_tasks o.tasks templates)
