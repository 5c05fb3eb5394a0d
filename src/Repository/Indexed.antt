-- ===== src/Repository/Indexed.antt =====
-- The index that `IndexDirectory` of pkg/kudoctl/util/repo builds.
use mathlib.Core.List.{Permᴰ}
use mathlib.Core.List.Permᴰ
use kudo.Prelude.{
  ok_injective, ◌≡◌, ◌≢◌, refl, ◌∙◌, subst, String, false, List, [], ◌∷◌, ◌++◌, Option, none, some,
  Result, ok, err, ◌>>=◌, ◌==◌, Bool-cases, inl, inr, All, All-append, eq_iff, ==_sym, ==_ne, arith,
}
use kudo.Prelude.Maps.{lookup, insert}
use kudo.Repository.Sorting.{Sorter, SorterLaws, All-perm}
use kudo.Repository.Index.{
  PackageVersion, IndexFile, Semver, same_versions, already_exists, add_to, add_package_version,
  or_same, add_all, new_index_file, sort_entries, sort_packages, validate_versions,
  validate_entries, validate_index,
}
use kudo.Repository.Directory.{
  PackageFs, files_digest, map_packages, index_archives, index_directory,
}

abbrev pub Differ : PackageVersion → PackageVersion → Type 0
Differ v w = same_versions v.app_version v.operator_version w ≡ false

abbrev pub DistinctVersions : List PackageVersion → Type 0
DistinctVersions [] = Unit
DistinctVersions (v ∷ vs) = All (Differ v) vs × DistinctVersions vs

-- The version belongs to the package, and has an operator version.
abbrev pub IsVersionOf : String → PackageVersion → Type 0
IsVersionOf name v = (v.name ≡ name) × (v.operator_version ≢ "")

abbrev pub Listed : String × List PackageVersion → Type 0
Listed (name, vs) = All (IsVersionOf name) vs × DistinctVersions vs

Differ-sym : (v w : PackageVersion) → Differ v w → Differ w v
Differ-sym v w h =
    ground
      (arith, h, ==_sym v.app_version w.app_version, ==_sym v.operator_version w.operator_version)

DistinctVersions-perm :
    {xs ys : List PackageVersion} → Permᴰ xs ys → DistinctVersions xs → DistinctVersions ys
DistinctVersions-perm Permᴰ.nil h = tt
DistinctVersions-perm (Permᴰ.cons {l₂ = l} e p) (d, h) =
    (subst (λ v. All (Differ v) l) e (All-perm _ p d), DistinctVersions-perm p h)
DistinctVersions-perm (Permᴰ.swap {a = a} {b = b} {b' = b'} {l = l} e f) ((ab, al), (bl, h)) =
    subst (λ v. DistinctVersions (v ∷ b' ∷ l)) f
      (subst (λ v. DistinctVersions (b ∷ v ∷ l)) e ((Differ-sym a b ab, bl), (al, h)))
DistinctVersions-perm (Permᴰ.trans p q) h = DistinctVersions-perm q (DistinctVersions-perm p h)

already_exists-Differ :
    (pv : PackageVersion) (vs : List PackageVersion)
    → already_exists pv.app_version pv.operator_version vs ≡ false
    → All (λ v. Differ v pv) vs
unfolding already_exists
already_exists-Differ pv [] h = tt
already_exists-Differ pv (v ∷ vs) h =
    elim (Bool-cases (same_versions pv.app_version pv.operator_version v)) [
      | inl e ↦ absurd (cc (rw e at h))
      | inr e ↦ (Differ-sym pv v e, already_exists-Differ pv vs (rw e at h))
    ]

DistinctVersions-append :
    (pv : PackageVersion) (vs : List PackageVersion)
    → DistinctVersions vs
    → All (λ v. Differ v pv) vs
    → DistinctVersions (vs ++ pv ∷ [])
DistinctVersions-append pv [] h k = (tt, tt)
DistinctVersions-append pv (v ∷ vs) (d, h) (e, k) =
    (All-append (Differ v) vs (pv ∷ []) d (e, tt), DistinctVersions-append pv vs h k)

insert-Listed :
    (name : String) (vs : List PackageVersion) (es : List (String × List PackageVersion))
    → Listed (name, vs)
    → All Listed es
    → All Listed (insert name vs es)
unfolding insert
insert-Listed name vs [] l h = (l, tt)
insert-Listed name vs ((other, old) ∷ rest) l (k, h) = elim (Bool-cases (other == name)) [
  | inl e ↦ rw e (l, h)
  | inr e ↦ rw e (k, insert-Listed name vs rest l h)
]

lookup-Listed :
    (name : String) (vs : List PackageVersion) (es : List (String × List PackageVersion))
    → lookup name es ≡ some vs
    → All Listed es
    → Listed (name, vs)
unfolding lookup
lookup-Listed name vs [] e h = absurd (cc)
lookup-Listed name vs ((other, old) ∷ rest) e (k, h) = elim (Bool-cases (other == name)) [
  | inl f ↦
      subst (λ v. Listed (name, v)) (some_injective _ _ (rw f at e))
        (subst (λ n. Listed (n, old)) ((eq_iff other name).0 f) k)
  | inr f ↦ lookup-Listed name vs rest (rw f at e) h
]
  where
    some_injective : (a b : List PackageVersion) → some a ≡ some b → a ≡ b
    some_injective a b h = cc

module _ {T : Type 0} where
  add_package_version-Listed :
      (pv : PackageVersion) (i : IndexFile T)
      → All Listed i.entries
      → All Listed (or_same (add_package_version pv i) i).entries
  unfolding add_package_version
  add_package_version-Listed pv i h = elim (Bool-cases (pv.operator_version == "")) [
    | inl e ↦ rw e h
    | inr e ↦
        rw e
          (added (lookup pv.name i.entries) refl (λ f. cc (e, (eq_iff pv.operator_version "").1 f)))
  ]
    where
      added :
          (o : Option (List PackageVersion))
          → lookup pv.name i.entries ≡ o
          → pv.operator_version ≢ ""
          → All Listed (or_same (add_to o pv i) i).entries
      added none e named =
          insert-Listed pv.name (pv ∷ []) i.entries (((refl, named), tt), (tt, tt)) h
      added (some []) e named =
          insert-Listed pv.name (pv ∷ []) i.entries (((refl, named), tt), (tt, tt)) h
      added (some (v ∷ vs)) e named =
          elim (Bool-cases (already_exists pv.app_version pv.operator_version (v ∷ vs))) [
            | inl f ↦ rw f h
            | inr f ↦
                let (all, distinct) = lookup-Listed pv.name (v ∷ vs) i.entries e h in
                rw f (
                  insert-Listed pv.name ((v ∷ vs) ++ pv ∷ []) i.entries
                    (
                      All-append (IsVersionOf pv.name) (v ∷ vs) (pv ∷ []) all ((refl, named), tt),
                      DistinctVersions-append pv (v ∷ vs) distinct
                          (already_exists-Differ pv (v ∷ vs) f),
                    )
                    h)
          ]

  add_all-Listed :
      (pvs : List PackageVersion) (i : IndexFile T)
      → All Listed i.entries
      → All Listed (add_all pvs i).entries
  unfolding add_all
  add_all-Listed [] i h = h
  add_all-Listed (pv ∷ rest) i h =
      add_all-Listed rest (or_same (add_package_version pv i) i) (add_package_version-Listed pv i h)

  add_all-api_version :
      (pvs : List PackageVersion) (i : IndexFile T) → (add_all pvs i).api_version ≡ i.api_version
  unfolding add_all add_package_version
  add_all-api_version [] i = refl
  add_all-api_version (pv ∷ rest) i =
      add_all-api_version rest (or_same (add_package_version pv i) i) ∙ ground arith

validate_versions-Listed :
    (name : String) (vs : List PackageVersion)
    → All (IsVersionOf name) vs
    → validate_versions vs ≡ none
unfolding validate_versions
validate_versions-Listed name [] h = refl
validate_versions-Listed name (v ∷ vs) ((_, named), h) =
    rw (==_ne v.operator_version "" named) (validate_versions-Listed name vs h)

validate_entries-Listed :
    (es : List (String × List PackageVersion)) → All Listed es → validate_entries es ≡ none
unfolding validate_entries
validate_entries-Listed [] h = refl
validate_entries-Listed ((name, vs) ∷ rest) ((h, _), k) =
    rw (validate_entries, validate_versions-Listed name vs h) (validate_entries-Listed rest k)

module _ {H B J V : Type 0} (fs : PackageFs H B J) (sv : Semver V) (go : Sorter)
    (laws : SorterLaws go) where
  sort_entries-Listed :
      (es : List (String × List PackageVersion))
      → All Listed es
      → All Listed (sort_entries sv go es)
  unfolding sort_entries
  sort_entries-Listed [] h = tt
  sort_entries-Listed ((name, vs) ∷ rest) ((all, distinct), h) =
      let back = Permᴰ.symm (laws.permuted PackageVersion _ vs) in
      ((All-perm _ back all, DistinctVersions-perm back distinct), sort_entries-Listed rest h)

  -- If `IndexDirectory` returns an index, then the index passes `validate`, and the versions of a package
  -- have the package's name, an operator version, and no two of them the same versions.
  pub index_directory-Listed :
      {T : Type 0} (pattern_path url : String) (now : T) (i : IndexFile T)
      → index_directory fs sv go pattern_path url now ≡ ok i
      → (validate_index i ≡ none) × All Listed i.entries
  unfolding index_directory validate_index
  index_directory-Listed {T = T} pattern_path url now i h = by_archives (fs.glob pattern_path) h
    where
      built :
          (pvs : List PackageVersion) (j : IndexFile T)
          → sort_packages sv go (add_all pvs (new_index_file now)) ≡ j
          → (validate_index j ≡ none) × All Listed j.entries
      built pvs j e =
          let listed = sort_entries-Listed _ (add_all-Listed pvs (new_index_file now) tt) in
          subst (λ k. (validate_index k ≡ none) × All Listed k.entries) e
            (
              rw (add_all-api_version pvs (new_index_file now)) (validate_entries-Listed _ listed),
              listed,
            )

      by_archives :
          (r : Result String (List String))
          → (r >>= λ archives. index_archives fs sv go archives url now) ≡ ok i
          → (validate_index i ≡ none) × All Listed i.entries
      by_archives (err e) h = cc
      by_archives (ok []) h = cc
      by_archives (ok (a ∷ rest)) h =
          built (map_packages (files_digest fs (a ∷ rest)) url) i (ok_injective _ _ h)
