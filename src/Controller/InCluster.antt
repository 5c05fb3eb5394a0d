-- ===== src/Controller/InCluster.antt =====
-- pkg/controller/instance/resolver_incluster.go, and `resolveDependencies` of instance_controller.go:
-- the resolution of dependencies among the operator versions in the cluster.
use kudo.Prelude.{ℕ, String, Bool, List, [], ◌∷◌, Result, ok, err, ◌==◌, if◌then◌else◌, concat}
use kudo.Libraries.{Packages}
use kudo.Api.Operator.{OperatorVersion, TaskSpec}
use kudo.Api.Instance.{Instance, is_child_instance}
use kudo.Engine.{Error, fatal_error_with, execution_error}
use kudo.Dependencies.Resolve.{
  Resources, Scope, Found, Failure, unresolved, not_updated, cyclic, exhausted,
  operator_version_name, fully_qualified_name, resolve_from,
}

-- `client.Get` of an operator version and of an operator, whose name is returned, by name and
-- namespace; yourbasic/graph's `Acyclic`; and the bound on the depth of the walk.
pub record Operators (W : Type 0) : Type 0 where
  pub get_operator_version_by_name : String → String → W → Result Error OperatorVersion
  pub get_operator : String → String → W → Result Error String
  pub acyclic : List (List ℕ) → Bool
  pub depth : ℕ

-- `%q` of a text that has no character to escape.
abbrev quoted : String → String
quoted s = concat ("\"" ∷ s ∷ "\"" ∷ [])

abbrev or_any : String → String
or_any s = if s == "" then "any" else s

unfoldable pub spec_text : TaskSpec → String
spec_text s = concat (
    "Operator: "
    ∷ quoted s.package_name
    ∷ ", OperatorVersion: "
    ∷ quoted (or_any s.operator_version)
    ∷ ", AppVersion "
    ∷ quoted (or_any s.app_version)
    ∷ [])

unfoldable pub failure_text : Failure → String
unfolding spec_text
failure_text (unresolved s ov e) = concat (
    "failed to resolve package "
    ∷ spec_text s
    ∷ ", dependency of package "
    ∷ fully_qualified_name ov
    ∷ ": "
    ∷ e
    ∷ [])
failure_text (not_updated name ov) = concat (
    "failed to update resolved task "
    ∷ name
    ∷ " of the operator "
    ∷ fully_qualified_name ov
    ∷ " with resolved data"
    ∷ [])
failure_text (cyclic parent child) = concat (
    "cyclic package dependency found when adding package "
    ∷ fully_qualified_name parent
    ∷ " -> "
    ∷ fully_qualified_name child
    ∷ [])
failure_text exhausted = ""

module _ {W : Type 0} (packages : Packages) (operators : Operators W) where
  abbrev pub with_operator :
      String → String → OperatorVersion → Result Error String → Result String (Scope (Unit {0}))
  with_operator name ns ov (err e) =
      err (concat ("failed to resolve operator " ∷ ns ∷ "/" ∷ name ∷ []))
  with_operator name ns ov (ok o) =
      ok (record { resources = record { operator_name = o; operator_version = ov }; resolver = tt })

  abbrev pub with_operator_version :
      String
      → String
      → String
      → String
      → W
      → Result Error OperatorVersion
      → Result String (Scope (Unit {0}))
  with_operator_version name app key ns w (err e) =
      err (concat ("failed to resolve operator version " ∷ ns ∷ "/" ∷ key ∷ ":" ∷ app ∷ []))
  with_operator_version name app key ns w (ok ov) =
      with_operator name ns ov (operators.get_operator name ns w)

  -- The method `Resolve` of `InClusterResolver`.
  unfoldable pub in_cluster_resolve :
      String → W → Unit {0} → String → String → String → Result String (Scope (Unit {0}))
  unfolding operator_version_name
  in_cluster_resolve ns w r name app version =
      let key = operator_version_name name app version in
      with_operator_version name app key ns w (operators.get_operator_version_by_name key ns w)

  -- `Resolve` with the in-cluster resolver.
  unfoldable pub resolve_in_cluster : OperatorVersion → W → Result Failure Found
  unfolding resolve_from in_cluster_resolve
  resolve_in_cluster ov w =
      resolve_from packages (in_cluster_resolve ov.namespace w) operators.acyclic operators.depth ov
        tt

  abbrev root_or : OperatorVersion → List Resources → OperatorVersion
  root_or ov [] = ov
  root_or ov (root ∷ rest) = root.operator_version

  abbrev resolved_version : OperatorVersion → Result Failure Found → Result Error OperatorVersion
  resolved_version ov (ok f) = ok (root_or ov f.dependencies)
  resolved_version ov (err e) = err (
      execution_error (fatal_error_with (concat ("fatal error: " ∷ failure_text e ∷ [])))
        "CircularDependency")

  -- A child instance leaves its dependencies to the top-level instance. The result is the operator
  -- version, in which `Resolve` has updated the tasks.
  unfoldable pub resolve_dependencies :
      Instance → OperatorVersion → W → Result Error OperatorVersion
  unfolding resolve_in_cluster failure_text execution_error
  resolve_dependencies i ov w =
      if is_child_instance i then ok ov else resolved_version ov (resolve_in_cluster ov w)
