-- ===== src/Samples/Indexes.antt =====
-- A directory of packages, its index, and operator versions in a cluster.
use kudo.Prelude.{ℕ, ◌≡◌, refl, String, true, false, [], ◌∷◌, none, some, ok, All, concat}
use kudo.Prelude.Maps.{lookup}
use kudo.Verifier.Files.{Files, OperatorFile}
use kudo.Repository.Index.{PackageVersion, IndexFile, validate_index, less, sort_entries}
use kudo.Repository.Directory.{PackageFs, index_directory}
use kudo.Repository.Lookup.{is_match, find_first_match}
use kudo.Repository.Indexed.{Listed, index_directory-Listed}
use kudo.Repository.Newest.{Parses, find_first_match-newest}
use kudo.Samples.Sorted.{insertion_sort, sorter, sorter-SorterLaws, numbers, numbers-IsOrder}

abbrev operator_file : String → OperatorFile
operator_file version = record {
  api_version = "kudo.dev/v1beta1";
  name = "kafka";
  description = "";
  operator_version = version;
  app_version = "1";
  kudo_version = "";
  kubernetes_version = "";
  maintainers = [];
  url = "";
  tasks = [];
  plans = [];
  namespace_manifest = "";
}

abbrev files_of : String → Files ℕ
files_of version = record {
  templates = [];
  operator = operator_file version;
  params = record { api_version = ""; groups = []; parameters = [] };
}

-- An open file is its path, and its path is the operator version; one file is there twice.
abbrev archives : PackageFs String String ℕ
archives = record {
  glob = λ p. ok ("1" ∷ "2" ∷ "1" ∷ []);
  open_file = λ p. ok p;
  sha256_sum = λ h. ok "digest";
  seek_start = λ h. ok tt;
  read_all = λ h. ok h;
  package_files_from_tar = λ b. ok (files_of b);
  close = λ h. none;
}

abbrev listed : String → String → PackageVersion
listed version url = record {
  name = "kafka";
  operator_version = version;
  app_version = "1";
  description = "";
  maintainers = [];
  urls = url ∷ [];
  removed = false;
  digest = "digest";
}

abbrev second : PackageVersion
second = listed "2" "http://localhost/kafka-1_2.tgz"

abbrev first_one : PackageVersion
first_one = listed "1" "http://localhost/kafka-1_1.tgz"

abbrev index : IndexFile ℕ
index = record {
  api_version = "v1";
  entries = ("kafka", second ∷ first_one ∷ []) ∷ [];
  generated = some 7;
}

index_directory-Listed_example : (validate_index index ≡ none) × All Listed index.entries
unfolding index_directory sort_entries insertion_sort lookup less concat
index_directory-Listed_example =
    index_directory-Listed archives numbers sorter sorter-SorterLaws "/*.tgz" "" 7 index refl

abbrev unsorted : IndexFile ℕ
unsorted = record {
  api_version = "v1";
  entries = ("kafka", first_one ∷ second ∷ []) ∷ [];
  generated = none;
}

parsed : All (Parses numbers) (first_one ∷ second ∷ [])
parsed = (
  record { app = 1; operator = 1; app_parsed = refl; operator_parsed = refl },
  (record { app = 1; operator = 2; app_parsed = refl; operator_parsed = refl }, tt),
)

find_first_match-newest_example :
    All (λ w. is_match "1" "" w ≡ true → less numbers second w ≡ false) (first_one ∷ second ∷ [])
unfolding lookup find_first_match sort_entries insertion_sort less
find_first_match-newest_example =
    find_first_match-newest numbers numbers-IsOrder sorter sorter-SorterLaws unsorted "kafka" "1" ""
      (first_one ∷ second ∷ []) second refl parsed refl
