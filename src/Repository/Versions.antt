-- ===== src/Repository/Versions.antt =====
-- pkg/util/kudo/versions.go, `ToSortableOperatorList` and the methods it needs, and the resolver of the command
-- line that searches the cluster (pkg/kudoctl/packages/resolver/resolver_incluster.go). An `int`
-- that is compared to 0 is an `Ordering`.
use Prim.Native.Nat.{Ordering}
use kudo.Prelude.{
  String, Bool, ◌&&◌, ◌||◌, not, List, [], ◌∷◌, Option, none, some, ◌==◌, if◌then◌else◌,
}
use kudo.Libraries.{Packages}
use kudo.Repository.Sorting.{Sorter}
use kudo.Repository.Index.{Semver}
use kudo.Repository.Order.{compare_text, is_lt, is_eq, is_gt}

-- The interface `SortableOperator`, which `A` implements.
pub record SortableOperator (A : Type 0) : Type 0 where
  pub operator_name : A → String
  pub operator_version : A → String
  pub app_version : A → String

abbrev pub lt_or_gt : Ordering → Ordering
lt_or_gt Ordering.lt = Ordering.lt
lt_or_gt _ = Ordering.gt

module _ {V : Type 0} (sv : Semver V) where
  abbrev pub compare_parsed : Option V → Option V → String → String → Ordering
  compare_parsed (some v) (some w) x y = sv.compare_to v w
  compare_parsed none none x y = lt_or_gt (compare_text x y)
  compare_parsed none (some w) x y = Ordering.lt
  compare_parsed (some v) none x y = Ordering.gt

  unfoldable pub compare_version : String → String → Ordering
  compare_version x y =
      if x == y then Ordering.eq else compare_parsed (sv.new_version x) (sv.new_version y) x y

module _ {A : Type 0} (o : SortableOperator A) where
  abbrev pub matches : String → String → String → A → Bool
  matches name operator_version app_version a =
      (name == o.operator_name a)
      && (operator_version == "" || operator_version == o.operator_version a)
      && (app_version == "" || app_version == o.app_version a)

  unfoldable pub find_first : List A → String → String → String → Option A
  find_first [] name operator_version app_version = none
  find_first (a ∷ rest) name operator_version app_version =
      if matches name operator_version app_version a
      then some a
      else find_first rest name operator_version app_version

  abbrev pub filter_by_name : Packages → List A → String → List A
  filter_by_name funk b name = funk.filter b (λ a. o.operator_name a == name)

  module _ {V : Type 0} (sv : Semver V) where
    -- `SortableOperatorList.Less`
    unfoldable pub is_less : A → A → Bool
    unfolding compare_version
    is_less x y =
        if not (o.operator_name x == o.operator_name y)
        then is_gt (compare_text (o.operator_name x) (o.operator_name y))
        else (let by_app = compare_version sv (o.app_version x) (o.app_version y) in
            if not (is_eq by_app)
            then is_lt by_app
            else is_lt (compare_version sv (o.operator_version x) (o.operator_version y)))

    -- `SortableOperatorList.Sort`
    abbrev pub sort_operators : Sorter → List A → List A
    sort_operators go b = go.sort (λ x y. is_less y x) b

    -- The choice of the resolver: `FilterByName`, `Sort` and `FindFirstMatch`.
    unfoldable pub choose : Packages → Sorter → List A → String → String → String → Option A
    unfolding find_first
    choose funk go list_ name operator_version app_version =
        find_first (sort_operators go (filter_by_name funk list_ name)) name operator_version
          app_version
