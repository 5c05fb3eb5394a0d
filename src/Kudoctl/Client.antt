-- ===== src/Kudoctl/Client.antt =====
-- pkg/kudoctl/util/kudo/kudo.go: the operations of the client that an installation and an upgrade use. The
-- generated clientset and the API server are a parameter; the kinds that `setGVKFromScheme` fills in are
-- not among the fields of the records.
use kudo.Prelude.{
  String, Bool, true, false, List, [], ◌∷◌, Option, none, some, Result, ok, err, ◌==◌,
  if◌then◌else◌, concat,
}
use kudo.Kube.Act.{Act, pure, failing, ◌>>=◌}
use kudo.Api.ExecutionStatus.{unset}
use kudo.Api.Operator.{OperatorVersion, ObjectReference}
use kudo.Api.Instance.{Instance, InstanceSpec, PlanExecution}
use kudo.Kudoctl.Convert.{Operator, NewInstance}

pub data ClientError : Type 0 where
  not_found : String → ClientError
  timeout : String → ClientError
  other : String → ClientError

abbrev pub api_text : ClientError → String
api_text (not_found s) = s
api_text (timeout s) = s
api_text (other s) = s

-- Get, List, Create and Patch, by namespace; the kinds of the scheme; and `uuid.NewUUID`.
pub record Clientset (W : Type 0) : Type 0 where
  pub get_operator : String → String → W → Result ClientError Operator
  pub get_operator_version : String → String → W → Result ClientError OperatorVersion
  pub get_instance : String → String → W → Result ClientError Instance
  pub list_operator_versions : String → W → Result ClientError (List OperatorVersion)
  pub create_operator : String → Operator → Act ClientError W Operator
  pub create_operator_version : String → OperatorVersion → Act ClientError W OperatorVersion
  pub create_instance : String → NewInstance → Act ClientError W Instance
  pub patch_instance_spec : String → String → InstanceSpec → Act ClientError W Instance
  pub set_gvk : String → Option String
  pub new_uuid : Act ClientError W String

abbrev exists : {A : Type 0} → Result ClientError A → Bool
exists (ok a) = true
exists (err e) = false

unfoldable pub versions_of : String → List OperatorVersion → List String
versions_of name [] = []
versions_of name (v ∷ rest) =
    if v.operator.name == name then v.version ∷ versions_of name rest else versions_of name rest

abbrev pub listed_versions :
    String → Result ClientError (List OperatorVersion) → Result String (List String)
listed_versions name (ok items) = ok (versions_of name items)
listed_versions name (err e) = err (api_text e)

-- Timeouts are not wrapped.
abbrev install_error : String → ClientError → String
install_error kind (timeout s) = s
install_error kind (not_found s) = concat ("installing " ∷ kind ∷ ": " ∷ s ∷ [])
install_error kind (other s) = concat ("installing " ∷ kind ∷ ": " ∷ s ∷ [])

abbrev new_reference : String → ObjectReference
new_reference name = record {
  kind = "";
  namespace = "";
  name = name;
  uid = "";
  api_version = "";
  resource_version = "";
  field_path = "";
}

abbrev reference_or_empty : Option String → ObjectReference
reference_or_empty none = new_reference ""
reference_or_empty (some name) = new_reference name

abbrev or_no_parameters : Option (List (String × String)) → List (String × String)
or_no_parameters none = []
or_no_parameters (some m) = m

module _ {W : Type 0} (c : Clientset W) where
  abbrev pub operator_exists_in_cluster : String → String → W → Bool
  operator_exists_in_cluster name namespace w = exists (c.get_operator namespace name w)

  -- What is not found is nil, and no error.
  abbrev found : {A : Type 0} → String → String → Result ClientError A → Result String (Option A)
  found kind what (err (not_found s)) = ok none
  found kind what (err (timeout s)) = err (concat (what ∷ s ∷ []))
  found kind what (err (other s)) = err (concat (what ∷ s ∷ []))
  found kind what (ok a) = elim (c.set_gvk kind) [ none ↦ ok (some a) | some e ↦ err e ]

  unfoldable pub get_instance : String → String → W → Result String (Option Instance)
  get_instance name namespace w = found "Instance" "" (c.get_instance namespace name w)

  unfoldable pub get_operator_version : String → String → W → Result String (Option OperatorVersion)
  get_operator_version name namespace w =
      found "OperatorVersion" "" (c.get_operator_version namespace name w)

  unfoldable pub get_operator : String → String → W → Result String (Option Operator)
  get_operator name namespace w =
      found "Operator" (concat ("failed to get operator " ∷ namespace ∷ "/" ∷ name ∷ ": " ∷ []))
        (c.get_operator namespace name w)

  unfoldable pub operator_versions_installed : String → String → W → Result String (List String)
  unfolding versions_of
  operator_versions_installed name namespace w =
      listed_versions name (c.list_operator_versions namespace w)

  abbrev pub install_operator_obj_to_cluster : Operator → String → Act String W Operator
  install_operator_obj_to_cluster obj namespace =
      failing (install_error "Operator") (c.create_operator namespace obj)

  abbrev pub install_operator_version_obj_to_cluster :
      OperatorVersion → String → Act String W OperatorVersion
  install_operator_version_obj_to_cluster obj namespace =
      failing (install_error "OperatorVersion") (c.create_operator_version namespace obj)

  abbrev pub install_instance_obj_to_cluster : NewInstance → String → Act String W Instance
  install_instance_obj_to_cluster obj namespace =
      failing (install_error "Instance") (c.create_instance namespace obj)

  abbrev plan_to_trigger : Option String → Act String W PlanExecution
  plan_to_trigger none = pure (record { plan_name = ""; uid = ""; status = unset })
  plan_to_trigger (some plan) = do
    uid ← failing api_text c.new_uuid
    pure (record { plan_name = plan; uid = uid; status = unset })

  -- `UpdateInstance` without a wait.
  unfoldable pub update_instance_spec :
      String
      → String
      → Option String
      → Option (List (String × String))
      → Option String
      → Act String W (Unit {0})
  update_instance_spec name namespace operator_version parameters triggered_plan = do
    execution ← plan_to_trigger triggered_plan
    patched ← failing api_text (
        c.patch_instance_spec namespace name (record {
          operator_version = reference_or_empty operator_version;
          parameters = or_no_parameters parameters;
          plan_execution = execution;
        }))
    pure tt
