-- ===== src/Verifier/Files.antt =====
-- pkg/kudoctl/packages/types.go and pkg/kudoctl/verifier/result.go: the files of a package, and what a
-- verifier returns. `J` is the type of the values that YAML reads into an `interface{}`.
use kudo.Prelude.{ℕ, String, Bool, List, [], ◌∷◌, ◌++◌, Option, is_empty}
use kudo.Api.Operator.{ParameterType, Task, Plan}

pub record PackageParameter (J : Type 0) : Type 0 where
  pub display_name : String
  pub name : String
  pub description : String
  pub required : Option Bool
  pub default : Option J
  pub trigger : String
  pub value_type : ParameterType
  pub immutable : Option Bool
  pub enum : Option (List J)
  pub group : String
  pub advanced : Option Bool
  pub hint : String

-- Whole numbers.
pub data ℤ : Type 0 where
  pos : ℕ → ℤ
  negsuc : ℕ → ℤ

pub record Group : Type 0 where
  pub name : String
  pub display_name : String
  pub description : String
  pub priority : ℤ

pub record ParamsFile (J : Type 0) : Type 0 where
  pub api_version : String
  pub groups : List Group
  pub parameters : List (PackageParameter J)

pub record Maintainer : Type 0 where
  pub name : String
  pub email : String

pub record OperatorFile : Type 0 where
  pub api_version : String
  pub name : String
  pub description : String
  pub operator_version : String
  pub app_version : String
  pub kudo_version : String
  pub kubernetes_version : String
  pub maintainers : List Maintainer
  pub url : String
  pub tasks : List Task
  pub plans : List (String × Plan)
  pub namespace_manifest : String

-- The parser of a package sets both pointers.
pub record Files (J : Type 0) : Type 0 where
  pub templates : List (String × String)
  pub operator : OperatorFile
  pub params : ParamsFile J

-- The texts of the messages, by what they say.
pub data Message : Type 0 where
  undefined_task : (task plan : String) → Message
  unused_task : (task : String) → Message
  undefined_plan : (plan parameter : String) → Message
  no_mandatory_plan : (plan : String) → Message
  undefined_template : (template task : String) → Message
  unreferenced_template : (template : String) → Message
  undefined_parameter : (parameter template : String) → Message
  undefined_toggle_parameter : (parameter task : String) → Message
  unused_parameter : (parameter : String) → Message
  invalid_implicit : (template parameter : String) → Message
  unreadable_template : (template problem : String) → Message
  parameter_error group_error : (name reason : String) → Message

pub record VerifierResult : Type 0 where
  pub errors : List Message
  pub warnings : List Message

abbrev pub new_result : VerifierResult
new_result = record { errors = []; warnings = [] }

abbrev pub add_error : Message → VerifierResult → VerifierResult
add_error e r = record { errors = r.errors ++ e ∷ []; warnings = r.warnings }

abbrev pub add_warning : Message → VerifierResult → VerifierResult
add_warning w r = record { errors = r.errors; warnings = r.warnings ++ w ∷ [] }

abbrev pub merge : VerifierResult → VerifierResult → VerifierResult
merge r other = record {
  errors = r.errors ++ other.errors;
  warnings = r.warnings ++ other.warnings;
}

abbrev pub is_valid : VerifierResult → Bool
is_valid r = is_empty r.errors
