-- ===== src/Kudoctl/Install.antt =====
-- pkg/kudoctl/resources/install/operator.go and instance.go, and pkg/kudoctl/resources/upgrade/operatorversion.go.
-- The dependencies are `packages.Resources` of which the operator and the operator version are used.
use kudo.Prelude.{
  String, not, List, [], ◌∷◌, Option, none, some, Result, ok, err, if◌then◌else◌, concat,
}
use kudo.Kube.Act.{Act, pure, raise, lift, failing, map_error, ◌>>=◌, ◌>>◌}
use kudo.Libraries.{Packages}
use kudo.Api.Operator.{OperatorVersion}
use kudo.Api.Instance.{Instance}
use kudo.Kudoctl.Convert.{Operator, NewInstance}
use kudo.Kudoctl.Client.{
  Clientset, operator_exists_in_cluster, get_instance, get_operator_version, get_operator,
  operator_versions_installed, install_operator_obj_to_cluster,
  install_operator_version_obj_to_cluster, install_instance_obj_to_cluster, update_instance_spec,
}
use kudo.Repository.Index.{Semver, less_than}

pub record Dependency : Type 0 where
  pub operator : Operator
  pub operator_version : OperatorVersion

abbrev pub failed_to : String → String → String → String → String
failed_to what namespace name e =
    concat ("failed to " ∷ what ∷ " " ∷ namespace ∷ "/" ∷ name ∷ ": " ∷ e ∷ [])

abbrev not_in_cluster : String → String → String → String
not_in_cluster kind namespace name =
    concat (kind ∷ " " ∷ namespace ∷ "/" ∷ name ∷ " does not exist in the cluster" ∷ [])

abbrev or_missing : {A : Type 0} → String → Option A → Result String A
or_missing e none = err e
or_missing e (some a) = ok a

module _ {V : Type 0} (sv : Semver V) where
  abbrev parsed_version : String → Result String V
  parsed_version s =
      or_missing (concat ("failed to parse " ∷ s ∷ " as semver" ∷ [])) (sv.new_version s)

  abbrev grown : String → String → Result String V → Result String V → Result String (Unit {0})
  grown old new (err e) r = err e
  grown old new (ok v) (err e) = err e
  grown old new (ok v) (ok w) =
      if not (less_than sv v w)
      then err (
          concat (
            "upgraded version " ∷ new ∷ " is the same or smaller as current version " ∷ old
            ∷ " -> not upgrading" ∷ []))
      else ok tt

  unfoldable pub compare_versions : String → String → Result String (Unit {0})
  compare_versions old new = grown old new (parsed_version old) (parsed_version new)

module _ {W : Type 0} (funk : Packages) (c : Clientset W) where
  abbrev pub ensure_operator : Operator → Act String W (Unit {0})
  ensure_operator o w =
      if operator_exists_in_cluster c o.name o.namespace w
      then (ok tt, w)
      else (failing (failed_to "install operator" o.namespace o.name)
              (install_operator_obj_to_cluster c o o.namespace)
            >> pure tt)
          w

  abbrev pub installed : String → Operator → W → Result String (List String)
  installed what o w =
      map_error (failed_to what o.namespace o.name)
        (operator_versions_installed c o.name o.namespace w)

  abbrev pub install_version : OperatorVersion → Act String W (Unit {0})
  install_version ov =
      failing (failed_to "install operatorversion" ov.namespace ov.name)
        (install_operator_version_obj_to_cluster c ov ov.namespace)
      >> pure tt

  -- The operator version is installed unless the list has its version.
  abbrev pub unless_installed :
      OperatorVersion → Act String W (Unit {0}) → List String → Act String W (Unit {0})
  unless_installed ov before versions =
      if funk.contains_string versions ov.version then pure tt else (before >> install_version ov)

  -- The body of the loop in `installDependencies`.
  unfoldable pub install_dependency : String → Dependency → Act String W (Unit {0})
  unfolding operator_versions_installed
  install_dependency namespace d w =
      let o = record d.operator { namespace = namespace } in
      let ov = record d.operator_version { namespace = namespace } in
      (do
        done ← ensure_operator o
        versions ← (λ w'. lift (installed "retrieve operatorversion of dependency" o w') w')
        unless_installed ov (pure tt) versions)
        w

  unfoldable pub install_dependencies : String → List Dependency → Act String W (Unit {0})
  unfolding install_dependency
  install_dependencies namespace [] = pure tt
  install_dependencies namespace (d ∷ rest) =
      install_dependency namespace d >> install_dependencies namespace rest

  unfoldable pub operator_and_operator_version :
      Operator → OperatorVersion → List Dependency → Act String W (Unit {0})
  unfolding install_dependencies
  operator_and_operator_version o ov dependencies = do
    done ← ensure_operator o
    versions ← (λ w. lift (installed "retrieve existing operator versions of operator" o w) w)
    unless_installed ov
        (failing (failed_to "install dependencies of operatorversion" ov.namespace ov.name)
          (install_dependencies ov.namespace dependencies))
        versions

  abbrev absent_or_error : NewInstance → Option Instance → Act String W (Unit {0})
  absent_or_error i (some old) = raise (
      concat (
        "cannot install instance '" ∷ i.instance.metadata.name
        ∷ "' because an instance of that name already exists in namespace "
        ∷ i.instance.metadata.namespace ∷ []))
  absent_or_error i none =
      failing (failed_to "install instance" i.instance.metadata.namespace i.instance.metadata.name)
        (install_instance_obj_to_cluster c i i.instance.metadata.namespace)
      >> pure tt

  abbrev verify_error : String → String
  verify_error e = concat ("failed to verify existing instance: " ∷ e ∷ [])

  -- `install.Instance`
  unfoldable pub install_instance : NewInstance → Act String W (Unit {0})
  unfolding get_instance
  install_instance i w =
      (do
        old ← lift (
            map_error verify_error
              (get_instance c i.instance.metadata.name i.instance.metadata.namespace w))
        absent_or_error i old)
        w

  unfoldable pub operator_version_from_instance : String → String → Act String W OperatorVersion
  unfolding get_instance get_operator_version
  operator_version_from_instance name namespace w =
      (do
        found ← lift (
            map_error (λ e. concat ("failed to get instance: " ∷ e ∷ []))
              (get_instance c name namespace w))
        i ← lift (or_missing (not_in_cluster "instance" namespace name) found)
        version ← lift (
            map_error (failed_to "retrieve existing operatorversion of instance" namespace name)
              (get_operator_version c i.spec.operator_version.name namespace w))
        lift (
            or_missing (not_in_cluster "operatorversion" namespace i.spec.operator_version.name)
              version))
        w

  module _ {V : Type 0} (sv : Semver V) where
    -- `upgrade.OperatorVersion`; an operator that is not there is followed as a nil pointer, which panics.
    unfoldable pub upgrade_operator_version :
        OperatorVersion
        → String
        → Option (List (String × String))
        → List Dependency
        → Act String W (Unit {0})
    unfolding operator_version_from_instance compare_versions get_operator
        operator_and_operator_version update_instance_spec
    upgrade_operator_version new name parameters dependencies = do
      old ← operator_version_from_instance name new.namespace
      grew ← lift (compare_versions sv old.version new.version)
      found ← (λ w.
          lift
            (map_error (failed_to "retrieve operator" new.namespace new.operator.name)
              (get_operator c new.operator.name new.namespace w))
            w)
      o ← lift (or_missing "panic: invalid memory address or nil pointer dereference" found)
      installed ←
          failing (failed_to "install new operatorversion" new.namespace new.name)
            (operator_and_operator_version o new dependencies)
      failing (failed_to "update instance for new operatorversion" new.namespace new.name)
          (update_instance_spec c name new.namespace (some new.name) parameters none)
