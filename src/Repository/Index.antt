-- ===== src/Repository/Index.antt =====
-- pkg/kudoctl/util/repo/index.go and digest.go, and `FindFirstMatch` and `Find` of resolver_repo.go. A pointer
-- to a package version is the version; a nil map is an empty one. `T` is the type of a time, `J` the
-- type of the values in a package's files.

use Prim.Native.Nat.{Ordering}
use kudo.Prelude.{
  String, Bool, true, false, ◌&&◌, List, [], ◌∷◌, ◌++◌, Option, none, some, Result, ok, err, ◌==◌,
  if◌then◌else◌, concat,
}
use kudo.Prelude.Maps.{lookup, insert}
use kudo.Verifier.Files.{Maintainer}
use kudo.Repository.Sorting.{Sorter}
use kudo.Repository.Order.{is_eq, is_lt}

abbrev default_url : String
default_url = "http://localhost/"

pub record PackageVersion : Type 0 where
  pub name : String
  pub operator_version : String
  pub app_version : String
  pub description : String
  pub maintainers : List Maintainer
  pub urls : List String
  pub removed : Bool
  pub digest : String

pub record IndexFile (T : Type 0) : Type 0 where
  pub api_version : String
  pub entries : List (String × List PackageVersion)
  pub generated : Option T

-- github.com/Masterminds/semver.
pub record Semver (V : Type 0) : Type 0 where
  pub new_version : String → Option V
  pub compare_to : V → V → Ordering

module _ {V : Type 0} (sv : Semver V) where
  abbrev pub equal : V → V → Bool
  equal v w = is_eq (sv.compare_to v w)

  abbrev pub less_than : V → V → Bool
  less_than v w = is_lt (sv.compare_to v w)

  abbrev pub less_parsed : Option V → Option V → (V → V → Bool) → Bool
  less_parsed none y next = true
  less_parsed (some v) none next = false
  less_parsed (some v) (some w) next = next v w

  -- `PackageVersions.Less`
  unfoldable pub less : PackageVersion → PackageVersion → Bool
  less x y = less_parsed (sv.new_version x.app_version) (sv.new_version y.app_version) λ v w.
      if equal v w
      then less_parsed (sv.new_version x.operator_version) (sv.new_version y.operator_version)
          (λ o p. less_than o p)
      else less_than v w

  module _ (go : Sorter) where
    -- `sort.Sort(sort.Reverse(versions))`
    abbrev pub sort_versions : List PackageVersion → List PackageVersion
    sort_versions versions = go.sort (λ x y. less y x) versions

    unfoldable pub sort_entries :
        List (String × List PackageVersion) → List (String × List PackageVersion)
    sort_entries [] = []
    sort_entries ((name, versions) ∷ rest) = (name, sort_versions versions) ∷ sort_entries rest

    abbrev pub sort_packages : {T : Type 0} → IndexFile T → IndexFile T
    sort_packages i = record i { entries = sort_entries i.entries }

abbrev pub same_versions : String → String → PackageVersion → Bool
same_versions app_version operator_version ver =
    (ver.app_version == app_version) && (ver.operator_version == operator_version)

unfoldable pub already_exists : String → String → List PackageVersion → Bool
already_exists app_version operator_version [] = false
already_exists app_version operator_version (ver ∷ vs) =
    if same_versions app_version operator_version ver
    then true
    else already_exists app_version operator_version vs

unfoldable pub validate_versions : List PackageVersion → Option String
validate_versions [] = none
validate_versions (pv ∷ rest) =
    if pv.operator_version == ""
    then some (concat ("package " ∷ pv.name ∷ " is missing an operator version" ∷ []))
    else validate_versions rest

unfoldable pub validate_entries : List (String × List PackageVersion) → Option String
unfolding validate_versions
validate_entries [] = none
validate_entries ((name, vs) ∷ rest) = elim (validate_versions vs) [
  | some e ↦ some e
  | none ↦ validate_entries rest
]

module _ {T : Type 0} where
  abbrev pub set_entry : String → List PackageVersion → IndexFile T → IndexFile T
  set_entry name vs i = record i { entries = insert name vs i.entries }

  abbrev pub add_to :
      Option (List PackageVersion) → PackageVersion → IndexFile T → Result String (IndexFile T)
  add_to none pv i = ok (set_entry pv.name (pv ∷ []) i)
  add_to (some []) pv i = ok (set_entry pv.name (pv ∷ []) i)
  add_to (some (v ∷ vs)) pv i =
      if already_exists pv.app_version pv.operator_version (v ∷ vs)
      then err (
          concat (
            "operator '" ∷ pv.name ∷ "' version: " ∷ pv.app_version ∷ "_" ∷ pv.operator_version
            ∷ " already exists" ∷ []))
      else ok (set_entry pv.name ((v ∷ vs) ++ pv ∷ []) i)

  unfoldable pub add_package_version : PackageVersion → IndexFile T → Result String (IndexFile T)
  unfolding insert already_exists
  add_package_version pv i =
      if pv.operator_version == ""
      then err (concat ("operator '" ∷ pv.name ∷ "' is missing operator version" ∷ []))
      else add_to (lookup pv.name i.entries) pv i

  -- `IndexFile.validate`
  unfoldable pub validate_index : IndexFile T → Option String
  unfolding validate_entries
  validate_index i =
      if i.api_version == "" then some "no API version defined" else validate_entries i.entries

  -- Errors are printed, and the loop goes on.
  abbrev pub or_same : Result String (IndexFile T) → IndexFile T → IndexFile T
  or_same (ok added) i = added
  or_same (err e) i = i

  unfoldable pub add_all : List PackageVersion → IndexFile T → IndexFile T
  unfolding add_package_version
  add_all [] i = i
  add_all (pv ∷ rest) i = add_all rest (or_same (add_package_version pv i) i)

  abbrev pub new_index_file : T → IndexFile T
  new_index_file t = record { api_version = "v1"; entries = []; generated = some t }
