-- ===== src/Dependencies/Resolve.antt =====
-- pkg/kudoctl/resources/dependencies/resolve.go: `Resolve` and `dependencyWalk`; the names of
-- operator versions from pkg/apis/kudo/v1beta1/operatorversion_types_helpers.go. The package graph's
-- `Acyclic` and the resolvers are parameters. A resolver returns objects that nothing else points
-- to: the operator version that a walk updates is the one in the list at the walk's index.
use kudo.Prelude.{
  ℕ, zero, suc, String, Bool, true, false, List, [], ◌∷◌, ◌++◌, Option, none, some, Result, ok, err,
  ◌>>=◌, ◌==◌, if◌then◌else◌, concat, length, eqb,
}
use kudo.Libraries.{Packages}
use kudo.Api.Operator.{Task, TaskSpec, OperatorVersion}

unfoldable pub operator_version_name : String → String → String → String
unfolding concat
operator_version_name operator app_version version =
    if app_version == ""
    then concat (operator ∷ "-" ∷ version ∷ [])
    else concat (operator ∷ "-" ∷ app_version ∷ "-" ∷ version ∷ [])

unfoldable pub fully_qualified_name : OperatorVersion → String
unfolding operator_version_name
fully_qualified_name ov = operator_version_name ov.operator.name ov.app_version ov.version

abbrev pub equal_operator_version : OperatorVersion → OperatorVersion → Bool
equal_operator_version a b = fully_qualified_name a == fully_qualified_name b

-- `packages.Resources`: the operator's name, and the operator version.
pub record Resources : Type 0 where
  pub operator_name : String
  pub operator_version : OperatorVersion

-- `packages.PackageScope`: what a resolver of type `R` returns.
pub record Scope (R : Type 0) : Type 0 where
  pub resources : Resources
  pub resolver : R

-- The dependencies, and for each of them the indices of its edges.
pub record Found : Type 0 where
  pub dependencies : List Resources
  pub edges : List (List ℕ)

pub data Failure : Type 0 where
  unresolved : TaskSpec → OperatorVersion → String → Failure
  not_updated : String → OperatorVersion → Failure
  cyclic : OperatorVersion → OperatorVersion → Failure
  -- Not an error of the code: the bound on the depth of the walk.
  exhausted : Failure

unfoldable pub has_index : ℕ → List ℕ → Bool
has_index n [] = false
has_index n (m ∷ rest) = if eqb m n then true else has_index n rest

unfoldable pub add_edge : ℕ → ℕ → List (List ℕ) → List (List ℕ)
unfolding has_index
add_edge v w [] = []
add_edge zero w (ws ∷ rest) = (if has_index w ws then ws else w ∷ ws) ∷ rest
add_edge (suc v) w (ws ∷ rest) = ws ∷ add_edge v w rest

abbrev resolved_spec : Resources → TaskSpec → TaskSpec
resolved_spec child spec = record spec {
  package_name = child.operator_name;
  operator_version = child.operator_version.version;
  app_version = child.operator_version.app_version;
}

abbrev with_task : Task → Option (List Task) → Option (List Task)
with_task t none = none
with_task t (some rest) = some (t ∷ rest)

unfoldable pub update_tasks : String → Resources → List Task → Option (List Task)
update_tasks name child [] = none
update_tasks name child (t ∷ rest) =
    if t.name == name
    then some (record t { spec = resolved_spec child t.spec } ∷ rest)
    else with_task t (update_tasks name child rest)

abbrev pub with_tasks : List Task → Resources → Resources
with_tasks tasks d = record d { operator_version = record d.operator_version { tasks = tasks } }

abbrev pub updated_here : Resources → List Resources → Option (List Task) → Option (List Resources)
updated_here d rest none = none
updated_here d rest (some tasks) = some (with_tasks tasks d ∷ rest)

abbrev pub behind : Resources → Option (List Resources) → Option (List Resources)
behind d none = none
behind d (some rest) = some (d ∷ rest)

-- `updateResolvedKudoOperatorTask` for the operator version at an index.
unfoldable pub update_resolved : ℕ → String → Resources → List Resources → Option (List Resources)
unfolding update_tasks
update_resolved n name child [] = none
update_resolved zero name child (d ∷ rest) =
    updated_here d rest (update_tasks name child d.operator_version.tasks)
update_resolved (suc n) name child (d ∷ rest) = behind d (update_resolved n name child rest)

abbrev pub after : Option ℕ → Option ℕ
after none = none
after (some n) = some (suc n)

-- `none` is Go's -1.
unfoldable pub index_of : List Resources → Resources → Option ℕ
unfolding fully_qualified_name
index_of [] d = none
index_of (e ∷ rest) d =
    if equal_operator_version e.operator_version d.operator_version
    then some 0
    else after (index_of rest d)

abbrev pub is_kudo_operator : Task → Bool
is_kudo_operator t = t.kind == "KudoOperator"

-- The recursive call.
abbrev pub Walk : Type 0 → Type 0
Walk R = Found → Resources → ℕ → R → Result Failure Found

abbrev pub linked : ℕ → ℕ → Found → Found
linked v w f = record f { edges = add_edge v w f.edges }

abbrev pub extended : Resources → Found → Found
extended child f = record {
  dependencies = f.dependencies ++ child ∷ [];
  edges = f.edges ++ [] ∷ [];
}

abbrev pub begin : Resources → Found
begin root = record { dependencies = root ∷ []; edges = [] ∷ [] }

abbrev pub root_of : OperatorVersion → Resources
root_of ov = record { operator_name = ""; operator_version = ov }

abbrev pub without_root : List Resources → List Resources
without_root [] = []
without_root (root ∷ rest) = rest

module _ {R : Type 0} (packages : Packages)
    (resolver : R → String → String → String → Result String (Scope R))
    (acyclic : List (List ℕ) → Bool) where
  abbrev pub checked : Resources → Resources → Found → Result Failure Found
  checked parent child f =
      if acyclic f.edges then ok f else err (cyclic parent.operator_version child.operator_version)

  abbrev pub link_child : Walk R → Resources → ℕ → Scope R → Found → Option ℕ → Result Failure Found
  link_child walk parent v scope f (some w) = checked parent scope.resources (linked v w f)
  link_child walk parent v scope f none =
      let w = length f.dependencies in
      checked parent scope.resources (linked v w (extended scope.resources f)) >>= λ f'.
      walk f' scope.resources w scope.resolver

  abbrev pub update_parent :
      Walk R
      → Resources
      → ℕ
      → Task
      → Scope R
      → Found
      → Option (List Resources)
      → Result Failure Found
  update_parent walk parent v t scope f none = err (not_updated t.name parent.operator_version)
  update_parent walk parent v t scope f (some ds) =
      link_child walk parent v scope (record f { dependencies = ds }) (index_of ds scope.resources)

  abbrev pub visit_scope :
      Walk R → Resources → ℕ → Task → Found → Result String (Scope R) → Result Failure Found
  visit_scope walk parent v t f (err e) = err (unresolved t.spec parent.operator_version e)
  visit_scope walk parent v t f (ok scope) =
      update_parent walk parent v t scope f
        (update_resolved v t.name scope.resources f.dependencies)

  -- The body of the loop over the tasks.
  unfoldable pub visit : Walk R → Resources → ℕ → R → Task → Found → Result Failure Found
  unfolding update_resolved index_of add_edge
  visit walk parent v r t f =
      visit_scope walk parent v t f
        (resolver r t.spec.package_name t.spec.app_version t.spec.operator_version)

  unfoldable pub visit_all : Walk R → Resources → ℕ → R → List Task → Found → Result Failure Found
  unfolding visit
  visit_all walk parent v r [] f = ok f
  visit_all walk parent v r (t ∷ rest) f =
      visit walk parent v r t f >>= visit_all walk parent v r rest

  -- The first argument bounds the depth.
  unfoldable pub dependency_walk : ℕ → Found → Resources → ℕ → R → Result Failure Found
  unfolding visit_all
  dependency_walk zero f parent v r = err exhausted
  dependency_walk (suc n) f parent v r =
      visit_all (dependency_walk n) parent v r
        (packages.filter parent.operator_version.tasks is_kudo_operator) f

  -- `Resolve` before it removes the root. The walk has updated the tasks of the root too.
  unfoldable pub resolve_from : ℕ → OperatorVersion → R → Result Failure Found
  unfolding dependency_walk
  resolve_from n ov r = dependency_walk n (begin (root_of ov)) (root_of ov) 0 r

  unfoldable pub resolve : ℕ → OperatorVersion → R → Result Failure (List Resources)
  unfolding resolve_from
  resolve n ov r = resolve_from n ov r >>= λ f. ok (without_root f.dependencies)
