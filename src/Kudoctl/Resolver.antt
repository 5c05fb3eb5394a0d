-- ===== src/Kudoctl/Resolver.antt =====
-- `InClusterResolver` of pkg/kudoctl/packages/resolver/resolver_incluster.go: the newest operator version in the
-- cluster that has the name and the versions asked for.
use kudo.Prelude.{
  ◌≡◌, sym, ap, subst, String, true, false, List, [], ◌∷◌, Option, none, some, Result, ok, err,
  ◌>>=◌, ok_injective, >>=-eq-ok, concat, All,
}
use kudo.Libraries.{Packages, Laws}
use kudo.Api.Operator.{OperatorVersion}
use kudo.Dependencies.Resolve.{operator_version_name}
use kudo.Kudoctl.Convert.{Operator, NewInstance, build_instance_resource}
use kudo.Kudoctl.Client.{ClientError, api_text, Clientset, get_operator}
use kudo.Repository.Sorting.{Sorter, SorterLaws}
use kudo.Repository.Order.{IsOrder}
use kudo.Repository.Index.{Semver}
use kudo.Repository.Versions.{SortableOperator, matches, is_less, choose}
use kudo.Repository.Chosen.{choose-newest}

-- The methods of `OperatorVersion` that make it sortable.
abbrev pub operator_versions : SortableOperator OperatorVersion
operator_versions = record {
  operator_name = λ ov. ov.operator.name;
  operator_version = λ ov. ov.version;
  app_version = λ ov. ov.app_version;
}

-- The resources; the operator is a nil pointer if it is not found.
pub record ClusterResources : Type 0 where
  pub operator : Option Operator
  pub operator_version : OperatorVersion
  pub instance : NewInstance

-- `%q` of a text that has no character to escape.
abbrev in_quotes : String → String
in_quotes s = concat ("\"" ∷ s ∷ "\"" ∷ [])

module _ {W V : Type 0} (c : Clientset W) (funk : Packages) (sv : Semver V) (go : Sorter) where
  abbrev listed_or_error :
      String → Result ClientError (List OperatorVersion) → Result String (List OperatorVersion)
  listed_or_error ns (err e) = err (
      concat
        ("failed to list operator versions in namespace " ∷ in_quotes ns ∷ ": " ∷ api_text e ∷ []))
  listed_or_error ns (ok []) =
      err (concat ("failed to find any operator version in namespace " ∷ ns ∷ []))
  listed_or_error ns (ok (ov ∷ ovs)) = ok (ov ∷ ovs)

  abbrev chosen_or_error :
      String → String → String → String → Option OperatorVersion → Result String OperatorVersion
  chosen_or_error ns name app_version operator_version none = err (
      concat (
        "failed to resolve operator version in namespace "
        ∷ in_quotes ns
        ∷ " for name "
        ∷ in_quotes name
        ∷ ", version "
        ∷ in_quotes operator_version
        ∷ ", appVersion "
        ∷ in_quotes app_version
        ∷ []))
  chosen_or_error ns name app_version operator_version (some ov) = ok ov

  abbrev operator_or_error :
      String → String → Result String (Option Operator) → Result String (Option Operator)
  operator_or_error ns name (err e) =
      err (concat ("failed to resolve operator " ∷ ns ∷ "/" ∷ name ∷ []))
  operator_or_error ns name (ok o) = ok o

  -- The parameters are in the order of the code: the app version is before the operator version. The instance
  -- is built with the two versions the other way round.
  unfoldable pub resolve_installed :
      String → String → String → String → W → Result String ClusterResources
  unfolding choose get_operator build_instance_resource
  resolve_installed ns name app_version operator_version w = do
    ovs ← listed_or_error ns (c.list_operator_versions ns w)
    ov ←
        chosen_or_error ns name app_version operator_version
          (choose operator_versions sv funk go ovs name operator_version app_version)
    o ← operator_or_error ns name (get_operator c name ns w)
    ok (record {
      operator = o;
      operator_version = ov;
      instance = build_instance_resource name operator_version app_version;
    })

  module _ (o : IsOrder sv.compare_to) (funk_laws : Laws funk) (go_laws : SorterLaws go) where
    listed_or_error-ok :
        (ns : String) (r : Result ClientError (List OperatorVersion)) (ovs : List OperatorVersion)
        → listed_or_error ns r ≡ ok ovs
        → r ≡ ok ovs
    listed_or_error-ok ns (err e) ovs h = cc
    listed_or_error-ok ns (ok []) ovs h = cc
    listed_or_error-ok ns (ok (v ∷ vs)) ovs h = ap ok (ok_injective _ _ h)

    chosen-some :
        (ns name app op : String) (r : Option OperatorVersion) (ov : OperatorVersion)
        → chosen_or_error ns name app op r ≡ ok ov
        → r ≡ some ov
    chosen-some ns name app op none ov h = cc
    chosen-some ns name app op (some v) ov h = ap some (ok_injective _ _ h)

    -- If the resolver succeeds, then no operator version that was listed and has the name and the versions asked
    -- for is newer than the one it returns, and the instance it returns refers to an operator version
    -- whose name has the operator version in the place of the app version and the app version in that
    -- of the operator version.
    pub resolve_installed-Newest :
        (ns name app_version operator_version : String) (w : W) (r : ClusterResources)
        → resolve_installed ns name app_version operator_version w ≡ ok r
        → ((ovs : List OperatorVersion) × (c.list_operator_versions ns w ≡ ok ovs)
            × All
                (λ ov.
                  matches operator_versions name operator_version app_version ov ≡ true
                  → is_less operator_versions sv r.operator_version ov ≡ false)
                ovs)
          × (r.instance.instance.spec.operator_version.name
              ≡ operator_version_name name operator_version app_version)
    unfolding resolve_installed build_instance_resource
    resolve_installed-Newest ns name app_version operator_version w r h =
        let (ovs, e, f) = >>=-eq-ok (listed_or_error ns (c.list_operator_versions ns w)) _ h in
        let (ov, g, k) =
          >>=-eq-ok
            (chosen_or_error ns name app_version operator_version
              (choose operator_versions sv funk go ovs name operator_version app_version))
            _ f in
        let (op, l, m) = >>=-eq-ok (operator_or_error ns name (get_operator c name ns w)) _ k in
        let same = ok_injective _ _ m in
        (
          (
            ovs,
            listed_or_error-ok ns (c.list_operator_versions ns w) ovs e,
            subst
                (λ (x : ClusterResources).
                  All
                    (λ v.
                      matches operator_versions name operator_version app_version v ≡ true
                      → is_less operator_versions sv x.operator_version v ≡ false)
                    ovs)
                same
                (choose-newest sv o operator_versions funk funk_laws go go_laws ovs name
                  operator_version app_version ov
                  (chosen-some ns name app_version operator_version _ ov g)),
          ),
          ap (λ (x : ClusterResources). x.instance.instance.spec.operator_version.name) (sym same),
        )
