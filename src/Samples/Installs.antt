-- ===== src/Samples/Installs.antt =====
-- A package that is converted and installed in a cluster, and the newest version there.
use mathlib.Core.List.{Permᴰ}
use mathlib.Core.List.Permᴰ
use kudo.Prelude.{
  ◌≡◌, refl, subst, String, true, false, List, [], ◌∷◌, ◌++◌, none, some, Result, ok, err, ◌⊎◌, All,
  ok_injective, contains,
}
use kudo.Libraries.{select, sample, sample-Laws}
use kudo.Api.Operator.{OperatorVersion}
use kudo.Dependencies.Resolve.{operator_version_name}
use kudo.Repository.Versions.{matches, is_less}
use kudo.Verifier.Files.{OperatorFile}
use kudo.Kudoctl.Params.{ParamFiles}
use kudo.Kudoctl.Convert.{Operator, PackageResources, files_to_resources, build_instance_resource}
use kudo.Kudoctl.Converted.{IsConsistent, files_to_resources-IsConsistent}
use kudo.Kudoctl.Client.{ClientError, Clientset, not_found}
use kudo.Kudoctl.Install.{Dependency, operator_and_operator_version}
use kudo.Kudoctl.Created.{ServerLaws, HasVersion}
use kudo.Kudoctl.Installed.{operator_and_operator_version-Installed}
use kudo.Kudoctl.Resolver.{
  operator_versions, ClusterResources, resolve_installed, resolve_installed-Newest,
}
use kudo.Samples.Data.{version, task}
use kudo.Samples.Sorted.{insertion_sort, sorter, sorter-SorterLaws, numbers, numbers-IsOrder}

-- The cluster is the operator versions of one namespace.
abbrev Cluster : Type 0
Cluster = List OperatorVersion

abbrev clientset : Clientset Cluster
clientset = record {
  get_operator = λ ns name w. err (not_found "no operator");
  get_operator_version = λ ns name w. err (not_found "no operator version");
  get_instance = λ ns name w. err (not_found "no instance");
  list_operator_versions = λ ns w. ok w;
  create_operator = λ ns o w. (ok o, w);
  create_operator_version = λ ns ov w. (ok ov, ov ∷ w);
  create_instance = λ ns i w. (ok i.instance, w);
  patch_instance_spec = λ ns name spec w. (err (not_found "no instance"), w);
  set_gvk = λ kind. none;
  new_uuid = λ w. (ok "uid", w);
}

clientset-ServerLaws : ServerLaws clientset
clientset-ServerLaws = record {
  versions = λ ns w. w;
  list_lem = λ ns w items h. subst (λ l. Permᴰ l w) (equal_lists w items h) (Permᴰ.refl w);
  create_lem = λ ns ov stored w w' h.
      subst (λ l. Permᴰ l (ov ∷ w)) (after ov stored w w' h) (Permᴰ.refl (ov ∷ w));
  create_operator_lem = λ ns other o w. refl;
}
  where
    equal_lists :
        (w items : Cluster) → ◌≡◌ {A = Result ClientError Cluster} (ok w) (ok items) → w ≡ items
    equal_lists w items h = ok_injective _ _ h

    after :
        (ov stored : OperatorVersion) (w w' : Cluster)
        → ◌≡◌ {A = Result ClientError OperatorVersion × Cluster} (ok ov, ov ∷ w) (ok stored, w')
        → ◌≡◌ {A = Cluster} (ov ∷ w) w'
    after ov stored w w' h = cc

abbrev kafka_operator : Operator
kafka_operator = record {
  name = "kafka";
  namespace = "default";
  description = "";
  kudo_version = "";
  kubernetes_version = "";
  maintainers = [];
  url = "";
  namespace_manifest = "";
}

abbrev kafka_version : String → String → OperatorVersion
kafka_version operator_version app_version = record version {
  name = "kafka";
  namespace = "default";
  operator = record version.operator { name = "kafka" };
  version = operator_version;
  app_version = app_version;
}

abbrev zookeeper_dependency : Dependency
zookeeper_dependency = record {
  operator = record kafka_operator { name = "zookeeper" };
  operator_version = record (kafka_version "1" "1") {
    operator = record version.operator { name = "zookeeper" };
  };
}

abbrev before : Cluster
before = kafka_version "1" "1" ∷ []

abbrev after_install : Cluster
after_install =
    kafka_version "2" "1"
    ∷ record zookeeper_dependency.operator_version { namespace = "default" }
    ∷ kafka_version "1" "1"
    ∷ []

operator_and_operator_version-Installed_example :
    (HasVersion before "kafka" "2" × (after_install ≡ before))
    ⊎ (((added : List OperatorVersion) × Permᴰ after_install
            (kafka_version "2" "1" ∷ (added ++ before)))
        × All
            (λ (d : Dependency).
              HasVersion after_install d.operator.name d.operator_version.version)
            (zookeeper_dependency ∷ []))
unfolding operator_and_operator_version contains clientset-ServerLaws
operator_and_operator_version-Installed_example =
    operator_and_operator_version-Installed sample sample-Laws clientset clientset-ServerLaws
      kafka_operator (kafka_version "2" "1") (zookeeper_dependency ∷ []) before after_install refl
      (refl, tt) refl

abbrev files : ParamFiles String
files = record {
  read_file = λ p. err "no file";
  unmarshal = λ b. err "no YAML";
  marshal = λ v. ok "";
  print = λ j. j;
}

abbrev kafka_file : OperatorFile
kafka_file = record {
  api_version = "kudo.dev/v1beta1";
  name = "kafka";
  description = "";
  operator_version = "2";
  app_version = "1";
  kudo_version = "";
  kubernetes_version = "";
  maintainers = [];
  url = "";
  tasks = task "wait" "Dummy" ∷ [];
  plans = [];
  namespace_manifest = "";
}

abbrev kafka_resources : PackageResources
kafka_resources = record {
  operator = record kafka_operator { namespace = "" };
  operator_version = record {
    name = "kafka-1-2";
    namespace = "";
    operator = record {
      kind = "Operator";
      namespace = "";
      name = "kafka";
      uid = "";
      api_version = "";
      resource_version = "";
      field_path = "";
    };
    version = "2";
    app_version = "1";
    templates = [];
    tasks = task "wait" "Dummy" ∷ [];
    parameters = [];
    plans = [];
  };
  instance = build_instance_resource "kafka" "1" "2";
}

files_to_resources-IsConsistent_example : IsConsistent kafka_resources
unfolding files_to_resources
files_to_resources-IsConsistent_example =
    files_to_resources-IsConsistent files [] (some kafka_file)
      (some (record { api_version = ""; groups = []; parameters = [] })) kafka_resources refl

abbrev two_versions : Cluster
two_versions = kafka_version "1" "1" ∷ kafka_version "10" "1" ∷ []

abbrev newest : ClusterResources
newest = record {
  operator = none;
  operator_version = kafka_version "10" "1";
  instance = build_instance_resource "kafka" "" "1";
}

resolve_installed-Newest_example :
    ((ovs : List OperatorVersion) × (clientset.list_operator_versions "default" two_versions
        ≡ ok ovs)
      × All
          (λ ov.
            matches operator_versions "kafka" "" "1" ov ≡ true
            → is_less operator_versions numbers newest.operator_version ov ≡ false)
          ovs)
    × (newest.instance.instance.spec.operator_version.name ≡ operator_version_name "kafka" "" "1")
unfolding resolve_installed insertion_sort is_less select
resolve_installed-Newest_example =
    resolve_installed-Newest clientset sample numbers sorter numbers-IsOrder sample-Laws
      sorter-SorterLaws "default" "kafka" "1" "" two_versions newest refl
