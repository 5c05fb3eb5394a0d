-- ===== src/Repository/Newest.antt =====
-- What `sortPackages` and `FindFirstMatch` of pkg/kudoctl/util/repo together choose.

use kudo.Prelude.{
  ok_injective, ◌≡◌, sym, ap, ◌∙◌, String, true, false, List, [], ◌∷◌, some, ok, Bool-cases, inl,
  inr, All, arith,
}
use kudo.Prelude.Maps.{lookup}
use kudo.Libraries.{first}
use kudo.Repository.Sorting.{Sorter, SorterLaws, IsWeakOrder, first-sort_reverse}
use kudo.Repository.Order.{
  IsOrder, is_lt, both_by, both_by-IsOrder, is_lt-asymmetric, is_lt-negative,
}
use kudo.Repository.Index.{
  PackageVersion, IndexFile, Semver, less, sort_entries, sort_versions, sort_packages,
}
use kudo.Repository.Lookup.{is_match, find_first_match_for_entries, find_first_match, match_in}

-- Both versions are semantic ones.
pub record Parses {V : Type 0} (sv : Semver V) (pv : PackageVersion) : Type 0 where
  pub app : V
  pub operator : V
  pub app_parsed : sv.new_version pv.app_version ≡ some app
  pub operator_parsed : sv.new_version pv.operator_version ≡ some operator

find_first_match_for_entries-first :
    (vs : List PackageVersion) (name app_version operator_version : String)
    → {pv : PackageVersion}
    → find_first_match_for_entries vs name app_version operator_version ≡ ok pv
    → first (is_match app_version operator_version) vs ≡ some pv
unfolding first find_first_match_for_entries
find_first_match_for_entries-first [] name app_version operator_version h = cc
find_first_match_for_entries-first (v ∷ rest) name app_version operator_version h =
    elim (Bool-cases (is_match app_version operator_version v)) [
      | inl e ↦ rw e (ap some (ok_injective _ _ (rw e at h)))
      | inr e ↦
          rw e
            (find_first_match_for_entries-first rest name app_version operator_version (rw e at h))
    ]

match_in-first :
    (vs : List PackageVersion) (name app_version operator_version : String)
    → {pv : PackageVersion} → match_in (some vs) name app_version operator_version ≡ ok pv
    → first (is_match app_version operator_version) vs ≡ some pv
match_in-first [] name app_version operator_version h = cc
match_in-first (v ∷ vs) name app_version operator_version h =
    find_first_match_for_entries-first (v ∷ vs) name app_version operator_version h

module _ {V : Type 0} (sv : Semver V) (o : IsOrder sv.compare_to) where
  less-parsed :
      (x y : PackageVersion) (p : Parses sv x) (q : Parses sv y)
      → less sv x y
        ≡ is_lt (both_by sv.compare_to sv.compare_to (p.app, p.operator) (q.app, q.operator))
  unfolding less
  less-parsed x y p q =
      rw (p.app_parsed, q.app_parsed, p.operator_parsed, q.operator_parsed) (ground arith)

  less-IsWeakOrder : IsWeakOrder (Parses sv) (less sv)
  less-IsWeakOrder = record {
    asymmetric = λ a b p q h.
        less-parsed b a q p
        ∙ is_lt-asymmetric pairs (p.app, p.operator) (q.app, q.operator)
            (sym (less-parsed a b p q) ∙ h);
    negative = λ a b c p q r h k.
        less-parsed a c p r
        ∙ is_lt-negative pairs (p.app, p.operator) (q.app, q.operator) (r.app, r.operator)
            (sym (less-parsed a b p q) ∙ h) (sym (less-parsed b c q r) ∙ k);
  }
    where
      pairs : IsOrder (both_by sv.compare_to sv.compare_to)
      pairs = both_by-IsOrder o o

  module _ (go : Sorter) (laws : SorterLaws go) where
    lookup-sort_entries :
        (name : String) (es : List (String × List PackageVersion)) (versions : List PackageVersion)
        → lookup name es ≡ some versions
        → lookup name (sort_entries sv go es) ≡ some (sort_versions sv go versions)
    unfolding lookup sort_entries
    lookup-sort_entries name [] versions h = cc
    lookup-sort_entries name ((other, vs) ∷ rest) versions h =
        ground (arith, lookup-sort_entries name rest versions)

    -- If the versions of an operator in an index are all semantic ones, then what `FindFirstMatch` finds in
    -- the sorted index is no less than any version that meets the same constraints.
    pub find_first_match-newest :
        {T : Type 0} (i : IndexFile T) (name app_version operator_version : String)
        (versions : List PackageVersion) (pv : PackageVersion)
        → lookup name i.entries ≡ some versions
        → All (Parses sv) versions
        → find_first_match (sort_packages sv go i) name app_version operator_version ≡ ok pv
        → All (λ w. is_match app_version operator_version w ≡ true → less sv pv w ≡ false) versions
    unfolding find_first_match
    find_first_match-newest i name app_version operator_version versions pv h p e =
        first-sort_reverse less-IsWeakOrder go laws (is_match app_version operator_version) versions
          pv p
          (match_in-first (sort_versions sv go versions) name app_version operator_version
            (rw (lookup-sort_entries name i.entries versions h) at e))
