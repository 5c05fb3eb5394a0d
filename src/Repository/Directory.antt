-- ===== src/Repository/Directory.antt =====
-- `IndexDirectory` and `ToPackageVersion` of pkg/kudoctl/util/repo/index.go, with digest.go. What a close
-- returns on an error path only replaces one error by another.
use Prim.Native.Char.{code}
use kudo.Prelude.{
  String, Bool, false, List, [], ◌∷◌, Option, none, some, Result, ok, err, ◌>>=◌, ◌==◌, eqb,
  if◌then◌else◌, concat,
}
use kudo.Verifier.Files.{Files, OperatorFile}
use kudo.Repository.Sorting.{Sorter}
use kudo.Repository.Index.{
  PackageVersion, IndexFile, Semver, add_all, new_index_file, sort_packages,
}

-- The file system, and the readers of package files. `H` is the type of an open file, `B` of its bytes.
pub record PackageFs (H B J : Type 0) : Type 0 where
  pub glob : String → Result String (List String)
  pub open_file : String → Result String H
  pub sha256_sum : H → Result String String
  pub seek_start : H → Result String (Unit {0})
  pub read_all : H → Result String B
  pub package_files_from_tar : B → Result String (Files J)
  pub close : H → Option String

pub record PackageFilesDigest (J : Type 0) : Type 0 where
  pub package_files : Files J
  pub digest : String

module _ {H B J : Type 0} (fs : PackageFs H B J) where
  abbrev none_failed : {A : Type 0} → Option String → A → Result String A
  none_failed none a = ok a
  none_failed (some e) a = err e

  unfoldable pub path_to_operator : String → Result String (PackageFilesDigest J)
  path_to_operator path = do
    h ← fs.open_file path
    digest ← fs.sha256_sum h
    start ← fs.seek_start h
    b ← fs.read_all h
    files ← fs.package_files_from_tar b
    none_failed (fs.close h) (record { package_files = files; digest = digest })

  abbrev with_operator :
      Result String (PackageFilesDigest J)
      → List (PackageFilesDigest J)
      → List (PackageFilesDigest J)
  with_operator (ok op) ops = op ∷ ops
  with_operator (err e) ops = ops

  -- `filesDigest`: files that are no packages are left out.
  unfoldable pub files_digest : List String → List (PackageFilesDigest J)
  unfolding path_to_operator
  files_digest [] = []
  files_digest (p ∷ rest) = with_operator (path_to_operator p) (files_digest rest)

abbrev ends_in_slash : String → Bool
ends_in_slash String.[] = false
ends_in_slash (String.◌∷◌ c String.[]) = eqb (code c) b'/'
ends_in_slash (String.◌∷◌ c (String.◌∷◌ d rest)) = ends_in_slash (String.◌∷◌ d rest)

abbrev base_url : String → String
base_url url =
    let url' = if url == "" then "http://localhost/" else url in
    if ends_in_slash url' then url' else concat (url' ∷ "/" ∷ [])

unfoldable pub package_url : OperatorFile → String → String
package_url o url =
    if o.app_version == ""
    then concat (base_url url ∷ o.name ∷ "-" ∷ o.operator_version ∷ ".tgz" ∷ [])
    else concat
        (base_url url ∷ o.name ∷ "-" ∷ o.app_version ∷ "_" ∷ o.operator_version ∷ ".tgz" ∷ [])

unfoldable pub to_package_version : {J : Type 0} → Files J → String → String → PackageVersion
unfolding package_url
to_package_version pf digest url = record {
  name = pf.operator.name;
  operator_version = pf.operator.operator_version;
  app_version = pf.operator.app_version;
  description = pf.operator.description;
  maintainers = pf.operator.maintainers;
  urls = package_url pf.operator url ∷ [];
  removed = false;
  digest = digest;
}

-- `Map`
unfoldable pub map_packages :
    {J : Type 0} → List (PackageFilesDigest J) → String → List PackageVersion
unfolding to_package_version
map_packages [] url = []
map_packages (pkg ∷ rest) url =
    to_package_version pkg.package_files pkg.digest url ∷ map_packages rest url

module _ {H B J V T : Type 0} (fs : PackageFs H B J) (sv : Semver V) (go : Sorter) where
  abbrev pub index_archives : List String → String → T → Result String (IndexFile T)
  index_archives [] url now = err "no packages discovered"
  index_archives (a ∷ rest) url now = ok (
      sort_packages sv go
        (add_all (map_packages (files_digest fs (a ∷ rest)) url) (new_index_file now)))

  -- The argument is the joined path, with the pattern `*.tgz`.
  unfoldable pub index_directory : String → String → T → Result String (IndexFile T)
  unfolding files_digest map_packages add_all
  index_directory pattern_path url now =
      fs.glob pattern_path >>= λ archives. index_archives archives url now
