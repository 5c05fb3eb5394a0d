-- ===== src/Controller/Resolved.antt =====
-- What the controller's resolution of dependencies makes sure of: pkg/controller/instance/resolver_incluster.go.
use kudo.Prelude.{◌≡◌, String, ok, All}
use kudo.Libraries.{Packages}
use kudo.Api.Operator.{OperatorVersion, Task}
use kudo.Dependencies.Resolve.{operator_version_name, is_kudo_operator}
use kudo.Controller.InCluster.{Operators}

module _ {W : Type 0} (packages : Packages) (operators : Operators W) where
  -- The operator that the task names is in the cluster, and so is its operator version, under the name
  -- that the operator and the two versions make.
  pub record Stored (ns : String) (w : W) (t : Task) : Type 0 where
    pub version : OperatorVersion
    pub operator : String
    pub version_there :
        operators.get_operator_version_by_name
          (operator_version_name t.spec.package_name t.spec.app_version t.spec.operator_version)
          ns
          w
        ≡ ok version
    pub operator_there : operators.get_operator t.spec.package_name ns w ≡ ok operator

  -- All that the operator version's tasks install is in the cluster.
  abbrev pub AllStored : String → W → OperatorVersion → Type 0
  AllStored ns w ov = All (Stored ns w) (packages.filter ov.tasks is_kudo_operator)
