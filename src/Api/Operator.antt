-- ===== src/Api/Operator.antt =====
-- pkg/apis/kudo/v1beta1/operatorversion_types.go and parameter_types.go: what an operator version
-- declares. `Plans` is a map from names to plans; a nil pointer is `none`.
use kudo.Prelude.{String, Bool, ◌&&◌, List, Option, ◌==◌}

-- Strings in Go. The empty string and unknown ones are `other`.
pub data Ordering : Type 0 where
  serial parallel other : Ordering

pub record Step : Type 0 where
  pub name : String
  pub tasks : List String

pub record Phase : Type 0 where
  pub name : String
  pub strategy : Ordering
  pub steps : List Step

pub record Plan : Type 0 where
  pub strategy : Ordering
  pub phases : List Phase

pub record PipeSpec : Type 0 where
  pub file : String
  pub env_file : String
  pub kind : String
  pub key : String

-- The embedded task specs, whose fields Go promotes.
pub record TaskSpec : Type 0 where
  pub resources : List String
  pub want_err : Bool
  pub fatal : Bool
  pub done : Bool
  pub pod : String
  pub pipe : List PipeSpec
  pub parameter : String
  pub package_name : String
  pub instance_name : String
  pub app_version : String
  pub operator_version : String
  pub parameter_file : String

pub record Task : Type 0 where
  pub name : String
  pub kind : String
  pub spec : TaskSpec

-- Strings in Go. The empty string and unknown ones are `untyped`.
pub data ParameterType : Type 0 where
  string integer number boolean array map_type untyped : ParameterType

pub record Parameter : Type 0 where
  pub display_name : String
  pub name : String
  pub description : String
  pub required : Option Bool
  pub default : Option String
  pub trigger : String
  pub value_type : ParameterType
  pub immutable : Option Bool
  pub enum : Option (List String)

-- `corev1.ObjectReference`.
pub record ObjectReference : Type 0 where
  pub kind : String
  pub namespace : String
  pub name : String
  pub uid : String
  pub api_version : String
  pub resource_version : String
  pub field_path : String

-- Go's `==` on two of them.
abbrev pub reference_eq : ObjectReference → ObjectReference → Bool
reference_eq a b =
    a.kind == b.kind
    && a.namespace == b.namespace
    && a.name == b.name
    && a.uid == b.uid
    && a.api_version == b.api_version
    && a.resource_version == b.resource_version
    && a.field_path == b.field_path

pub record OperatorVersion : Type 0 where
  pub name : String
  pub namespace : String
  pub operator : ObjectReference
  pub version : String
  pub app_version : String
  pub templates : List (String × String)
  pub tasks : List Task
  pub parameters : List Parameter
  pub plans : List (String × Plan)
