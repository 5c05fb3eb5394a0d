-- ===== src/Repository/Lookup.antt =====
-- pkg/kudoctl/util/repo/resolver_repo.go and `DownloadIndexFile` of repo_operator.go: what a client finds in an
-- index. The messages to the log are left out.
use Prim.Native.Char.{code}
use kudo.Prelude.{
  String, Bool, true, false, ◌&&◌, ◌||◌, List, [], ◌∷◌, ◌++◌, Option, none, some, Result, ok, err,
  ◌>>=◌, ◌==◌, eqb, if◌then◌else◌, concat,
}
use kudo.Prelude.Maps.{lookup}
use kudo.Repository.Sorting.{Sorter}
use kudo.Repository.Order.{compare_text, is_lt}
use kudo.Repository.Index.{PackageVersion, IndexFile, Semver, sort_packages, validate_index}

abbrev pub is_match : String → String → PackageVersion → Bool
is_match app_version operator_version ver =
    (ver.app_version == app_version || app_version == "")
    && (ver.operator_version == operator_version || operator_version == "")

abbrev no_version : String → String → String
no_version name operator_version =
    if operator_version == ""
    then concat ("no operator version found for " ∷ name ∷ [])
    else concat ("no operator version found for " ∷ name ∷ "-" ∷ operator_version ∷ [])

unfoldable pub find_first_match_for_entries :
    List PackageVersion → String → String → String → Result String PackageVersion
find_first_match_for_entries [] name app_version operator_version =
    err (no_version name operator_version)
find_first_match_for_entries (ver ∷ rest) name app_version operator_version =
    if is_match app_version operator_version ver
    then ok ver
    else find_first_match_for_entries rest name app_version operator_version

abbrev pub match_in :
    Option (List PackageVersion) → String → String → String → Result String PackageVersion
match_in none name app_version operator_version =
    err (concat ("no operator found for: " ∷ name ∷ []))
match_in (some []) name app_version operator_version =
    err (concat ("no operator found for: " ∷ name ∷ []))
match_in (some (v ∷ vs)) name app_version operator_version =
    find_first_match_for_entries (v ∷ vs) name app_version operator_version

-- `IndexFile.FindFirstMatch`
unfoldable pub find_first_match :
    {T : Type 0} → IndexFile T → String → String → String → Result String PackageVersion
unfolding find_first_match_for_entries lookup
find_first_match i name app_version operator_version =
    match_in (lookup name i.entries) name app_version operator_version

pub record EntrySummary : Type 0 where
  pub name : String
  pub operator_version : String
  pub app_version : String

abbrev summary : String → PackageVersion → EntrySummary
summary name pv = record {
  name = name;
  operator_version = pv.operator_version;
  app_version = pv.app_version;
}

abbrev pub summaries : String → List PackageVersion → List EntrySummary
summaries name [] = []
summaries name (pv ∷ rest) = summary name pv ∷ summaries name rest

-- `EntrySummaries.Less`: `<` of texts.
abbrev pub summary_less : EntrySummary → EntrySummary → Bool
summary_less x y = is_lt (compare_text x.name y.name)

-- `strings.Contains(name, search)`
abbrev is_prefix : String → String → Bool
is_prefix String.[] s = true
is_prefix (String.◌∷◌ c p) String.[] = false
is_prefix (String.◌∷◌ c p) (String.◌∷◌ d s) = eqb (code c) (code d) && is_prefix p s

abbrev pub contains_text : String → String → Bool
contains_text String.[] search = is_prefix search ""
contains_text (String.◌∷◌ c rest) search =
    is_prefix search (String.◌∷◌ c rest) || contains_text rest search

module _ {T : Type 0} (go : Sorter) (i : IndexFile T) (search : String) (all_versions : Bool) where
  abbrev entry_summaries : String → List PackageVersion → Result String (List EntrySummary)
  entry_summaries name versions =
      if contains_text name search
      then if all_versions
        then ok (summaries name versions)
        else (find_first_match i name "" "" >>= λ pv. ok (summary name pv ∷ []))
      else ok []

  unfoldable pub find_entries :
      List (String × List PackageVersion) → Result String (List EntrySummary)
  unfolding find_first_match
  find_entries [] = ok []
  find_entries ((name, versions) ∷ rest) = do
    here ← entry_summaries name versions
    later ← find_entries rest
    ok (here ++ later)

  -- `IndexFile.Find`
  unfoldable pub find : Result String (List EntrySummary)
  unfolding find_entries
  find = find_entries i.entries >>= λ found. ok (go.sort summary_less found)

-- net/url, the HTTP client, the file system and YAML. `B` is the type of the bytes, `U` of a URL.
pub record Web (T B U : Type 0) : Type 0 where
  pub parse : String → Result String U
  pub path : U → String
  pub with_path : U → String → U
  pub text : U → String
  pub get : String → Result String B
  -- Nil, if the file cannot be read.
  pub read_file : String → B
  pub unmarshal : B → Result String (IndexFile T)

module _ {V T B U : Type 0} (sv : Semver V) (go : Sorter) (web : Web T B U) where
  abbrev validated : Option String → IndexFile T → Result String (IndexFile T)
  validated (some e) i = err (concat ("validating index file: " ∷ e ∷ []))
  validated none i = ok (sort_packages sv go i)

  abbrev described {ℓ} : {A : Type ℓ} → String → Result String A → Result String A
  described what (ok a) = ok a
  described what (err e) = err (concat (what ∷ ": " ∷ e ∷ []))

  unfoldable pub parse_index_file : B → Result String (IndexFile T)
  parse_index_file data_ = described "unmarshalling index file" (web.unmarshal data_) >>= λ i.
      validated (validate_index i) i

  -- `strings.TrimSuffix(path, "/")`
  abbrev trim_slash : String → String
  trim_slash String.[] = ""
  trim_slash (String.◌∷◌ c String.[]) = if eqb (code c) b'/' then "" else String.◌∷◌ c ""
  trim_slash (String.◌∷◌ c (String.◌∷◌ d rest)) = String.◌∷◌ c (trim_slash (String.◌∷◌ d rest))

  abbrev index_bytes : U → Result String B
  index_bytes u =
      if is_prefix "file:" (web.text u)
      then ok (web.read_file (web.path u))
      else described "getting index url" (web.get (web.text u))

  unfoldable pub download_index_file : String → Result String (IndexFile T)
  unfolding parse_index_file
  download_index_file url = do
    u ← described "parsing config url" (web.parse url)
    b ← index_bytes (web.with_path u (concat (trim_slash (web.path u) ∷ "/index.yaml" ∷ [])))
    parse_index_file b

  -- The first URL that can be read, or the last error: with no URL, no bytes and no error.
  unfoldable pub package_reader : List String → Option String → Result String (Option B)
  package_reader [] none = ok none
  package_reader [] (some e) = err e
  package_reader (u ∷ rest) last = elim (web.get u) [
    | ok b ↦ ok (some b)
    | err e ↦
        package_reader rest
          (some (concat ("unable to read package getting package url: " ∷ e ∷ [])))
  ]

  unfoldable pub get_package_bytes : String → String → String → String → Result String (Option B)
  unfolding download_index_file package_reader find_first_match
  get_package_bytes url name app_version operator_version = do
    i ← described "could not download repository index file" (download_index_file url)
    pkg ←
        described (concat ("getting " ∷ name ∷ " in index file" ∷ []))
          (find_first_match i name app_version operator_version)
    package_reader pkg.urls none
