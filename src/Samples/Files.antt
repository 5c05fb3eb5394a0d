-- ===== src/Samples/Files.antt =====
-- The files of a package whose parameter triggers its plan.
use kudo.Prelude.{◌≡◌, ◌↔◌, String, true, none, [], ◌∷◌, All}
use kudo.Prelude.Maps.{has_key}
use kudo.Api.Operator.{ParameterType}
use kudo.Verifier.Files.{PackageParameter, Files, is_valid}
use kudo.Verifier.References.{verify_tasks, verify_plans}
use kudo.Verifier.Defined.{
  PlanDefined, TriggerDefined, verify_tasks-valid_iff, verify_plans-valid_iff,
}
use kudo.Samples.Data.{version}

abbrev memory : PackageParameter String
memory = record {
  display_name = "";
  name = "memory";
  description = "";
  required = none;
  default = none;
  trigger = "deploy";
  value_type = ParameterType.integer;
  immutable = none;
  enum = none;
  group = "";
  advanced = none;
  hint = "";
}

abbrev pub files : Files String
files = record {
  templates = version.templates;
  operator = record {
    api_version = "kudo.dev/v1beta1";
    name = "zookeeper";
    description = "";
    operator_version = version.version;
    app_version = version.app_version;
    kudo_version = "";
    kubernetes_version = "";
    maintainers = [];
    url = "";
    tasks = version.tasks;
    plans = version.plans;
    namespace_manifest = "";
  };
  params = record { api_version = "kudo.dev/v1beta1"; groups = []; parameters = memory ∷ [] };
}

verify_tasks-valid_iff_example :
    (is_valid (verify_tasks files) ≡ true) ↔ All (PlanDefined version.tasks) version.plans
verify_tasks-valid_iff_example = verify_tasks-valid_iff files

verify_plans-valid_iff_example :
    (is_valid (verify_plans files) ≡ true)
    ↔ (All (TriggerDefined files) (memory ∷ []) × (has_key "deploy" version.plans ≡ true))
verify_plans-valid_iff_example = verify_plans-valid_iff files
