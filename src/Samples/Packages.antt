-- ===== src/Samples/Packages.antt =====
-- Kafka depends on ZooKeeper, and a resolver finds ZooKeeper only.
use kudo.Prelude.{
  ℕ, suc, ◌≡◌, ◌≢◌, refl, subst, String, Bool, true, ◌&&◌, List, [], ◌∷◌, Result, ok, err, inl, inr,
  Bool-cases, ltb, contains, concat, arith, ◌==◌, if◌then◌else◌,
}
use kudo.Libraries.{sample, select}
use kudo.Api.Operator.{Task, OperatorVersion}
use kudo.Dependencies.Resolve.{Found, Resources, Scope, exhausted, fully_qualified_name, resolve}
use kudo.Dependencies.Results.{Resolved, resolve-Sound, resolve_ends}
use kudo.Controller.InCluster.{Operators}
use kudo.Engine.{plain_error}
use kudo.Samples.Data.{version, task}

abbrev zookeeper_task : Task
zookeeper_task =
    let t = task "zookeeper" "KudoOperator" in
    record t { spec = record t.spec { package_name = "zookeeper" } }

abbrev kafka : OperatorVersion
kafka = record version {
  name = "kafka-2";
  operator = record version.operator { name = "kafka" };
  version = "2";
  tasks = zookeeper_task ∷ [];
}

abbrev zookeeper : Resources
zookeeper = record { operator_name = "zookeeper"; operator_version = version }

abbrev resolver : Unit {0} → String → String → String → Result String (Scope (Unit {0}))
resolver r name app op =
    if name == "zookeeper"
    then ok (record { resources = zookeeper; resolver = tt })
    else err "not found"

-- Every edge leads to a later vertex, so there is no cycle.
abbrev all_after : ℕ → List ℕ → Bool
all_after v [] = true
all_after v (w ∷ rest) = ltb v w && all_after v rest

abbrev upward : ℕ → List (List ℕ) → Bool
upward v [] = true
upward v (ws ∷ rest) = all_after v ws && upward (suc v) rest

abbrev acyclic : List (List ℕ) → Bool
acyclic g = upward 0 g

resolve-Sound_example : Resolved sample resolver acyclic kafka tt (zookeeper ∷ [])
unfolding resolve fully_qualified_name concat select
resolve-Sound_example = resolve-Sound sample resolver acyclic 2 kafka tt (zookeeper ∷ []) refl refl

abbrev universe : List String
universe = "zookeeper-3.4-1" ∷ "kafka-3.4-2" ∷ []

found_in_universe :
    (r : Unit {0}) (name app op : String) (scope : Scope (Unit {0}))
    → resolver r name app op ≡ ok scope
    → contains (fully_qualified_name scope.resources.operator_version) universe ≡ true
unfolding fully_qualified_name concat contains
found_in_universe r name app op scope h = elim (Bool-cases (name == "zookeeper")) [
  | inl e ↦ at_zookeeper scope (rw e at h)
  | inr e ↦ cc (rw e at h)
]
  where
    at_zookeeper :
        (s : Scope (Unit {0}))
        → ◌≡◌ {A = Result String (Scope (Unit {0}))}
            (ok (record { resources = zookeeper; resolver = tt }))
            (ok s)
        → contains (fully_qualified_name s.resources.operator_version) universe ≡ true
    at_zookeeper s e =
        let same : record { resources = zookeeper; resolver = tt } ≡ s = cc e in
        subst (λ t. contains (fully_qualified_name t.resources.operator_version) universe ≡ true)
          same refl

resolve_ends_example : resolve sample resolver acyclic 2 kafka tt ≢ err exhausted
unfolding fully_qualified_name concat contains
resolve_ends_example =
    resolve_ends sample resolver acyclic universe found_in_universe 2 kafka tt refl refl
      (omega arith)

-- The cluster has the two operator versions.
abbrev stored_operators : Operators ℕ
stored_operators = record {
  get_operator_version_by_name =
      λ key ns w. if key == "zookeeper-3.4-1" then ok version else err (plain_error "not found");
  get_operator = λ name ns w. ok name;
  acyclic = acyclic;
  depth = 2;
}

abbrev pinned_task : Task
pinned_task = record zookeeper_task {
  spec = record zookeeper_task.spec { operator_version = "1"; app_version = "3.4" };
}

abbrev pinned_kafka : OperatorVersion
pinned_kafka = record kafka { tasks = pinned_task ∷ [] }

abbrev kafka_found : Found
kafka_found = record {
  dependencies = record { operator_name = ""; operator_version = pinned_kafka } ∷ zookeeper ∷ [];
  edges = (1 ∷ []) ∷ [] ∷ [];
}
