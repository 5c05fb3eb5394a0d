-- ===== src/Kudoctl/Params.antt =====
-- pkg/kudoctl/cmd/params/parser.go, and `WrapParamValue` of pkg/util/convert/convert.go. A slice of
-- errors is nil exactly if it is empty.
use Prim.Native.Char.{Char, code}
use kudo.Prelude.{
  String, List, [], ◌∷◌, ◌++◌, Option, none, some, Result, ok, err, ◌>>=◌, ◌==◌, eqb, if◌then◌else◌,
  concat,
}
use kudo.Prelude.Maps.{insert}
use kudo.Api.Operator.{ParameterType, string, array, map_type}

-- What YAML reads into an `interface{}`: `scalar` has the text that `%v` prints of a number or a
-- Boolean. `J` is the type of the composite values.
pub data YamlValue (J : Type 0) : Type 0 where
  mapping sequence : J → YamlValue J
  text scalar : String → YamlValue J
  null : YamlValue J

-- The file system and sigs.k8s.io/yaml. A file is read into a map; the order of the list is that in
-- which `range` meets the keys.
pub record ParamFiles (J : Type 0) : Type 0 where
  pub read_file : String → Result String String
  pub unmarshal : String → Result String (List (String × YamlValue J))
  pub marshal : YamlValue J → Result String String
  pub print : J → String

-- `strings.Join(errs, ", ")`
unfoldable pub join_errors : List String → String
join_errors [] = ""
join_errors (e ∷ []) = e
join_errors (e ∷ es) = concat (e ∷ ", " ∷ join_errors es ∷ [])

-- `strings.SplitN(raw, "=", 2)`: `none` if there is one part only.
abbrev pub push_char : Char → Option (String × String) → Option (String × String)
push_char c none = none
push_char c (some (key, param)) = some (String.◌∷◌ c key, param)

unfoldable pub split_n : String → Option (String × String)
split_n String.[] = none
split_n (String.◌∷◌ c rest) =
    let later = push_char c (split_n rest) in if eqb (code c) b'=' then some ("", rest) else later

abbrev pub parameter_of : String → Option (String × String) → Result String (String × String)
parameter_of raw none = err (concat ("parameter not set: " ∷ raw ∷ []))
parameter_of raw (some (key, param)) =
    if key == ""
    then err (concat ("parameter name can not be empty: " ∷ raw ∷ []))
    else if param == ""
    then err (concat ("parameter value can not be empty: " ∷ raw ∷ []))
    else ok (key, param)

unfoldable pub parse_parameter : String → Result String (String × String)
unfolding split_n
parse_parameter raw = parameter_of raw (split_n raw)

-- What a loop has gathered: the parameters and the errors.
pub record Gathered : Type 0 where
  pub parameters : List (String × String)
  pub errors : List String

abbrev pub none_gathered : Gathered
none_gathered = record { parameters = []; errors = [] }

abbrev pub add_parameter : Result String (String × String) → Gathered → Gathered
add_parameter (err e) g = record { parameters = g.parameters; errors = g.errors ++ e ∷ [] }
add_parameter (ok (key, value)) g = record {
  parameters = insert key value g.parameters;
  errors = g.errors;
}

abbrev pub add_raw : List String → Gathered → Gathered
add_raw [] g = g
add_raw (a ∷ rest) g = add_raw rest (add_parameter (parse_parameter a) g)

unfoldable pub get_params_from_cmdline : List String → Gathered
unfolding parse_parameter insert
get_params_from_cmdline raw = add_raw raw none_gathered

-- The loop of `mergeParams` over one map.
unfoldable pub copy_params :
    List (String × String) → List (String × String) → List (String × String)
unfolding insert
copy_params [] params = params
copy_params ((key, value) ∷ rest) params = copy_params rest (insert key value params)

unfoldable pub merge_params :
    List (String × String) → List (String × String) → List (String × String)
unfolding copy_params
merge_params from_cmdline from_files = copy_params from_cmdline (copy_params from_files [])

module _ {J : Type 0} (files : ParamFiles J) where
  -- `fmt.Sprintf("%v", unwrapped)`, or nil.
  abbrev pub printed : YamlValue J → Option String
  printed (mapping j) = some (files.print j)
  printed (sequence j) = some (files.print j)
  printed (text s) = some s
  printed (scalar s) = some s
  printed null = none

  abbrev pub marshalled : YamlValue J → Result String (Option String)
  marshalled v = files.marshal v >>= λ t. ok (some t)

  unfoldable pub wrap_param_value : YamlValue J → ParameterType → Result String (Option String)
  wrap_param_value v map_type = marshalled v
  wrap_param_value v array = marshalled v
  wrap_param_value v string = ok (printed v)
  wrap_param_value v _ = ok (printed v)

  -- The switch over the value's type.
  abbrev pub value_type : YamlValue J → ParameterType
  value_type (mapping j) = map_type
  value_type (sequence j) = array
  value_type (text s) = string
  value_type _ = string

  abbrev pub wrapped_value :
      String → Result String (Option String) → Result String (String × String)
  wrapped_value key (err e) = err (concat (key ∷ ": " ∷ e ∷ []))
  wrapped_value key (ok none) = err (
      concat (
        key
        ∷ " has a null value (https://yaml.org/spec/1.2/spec.html#id2803362) which is currently not supported"
        ∷ []))
  wrapped_value key (ok (some s)) = ok (key, s)

  unfoldable pub add_values : List (String × YamlValue J) → Gathered → Gathered
  unfolding insert wrap_param_value
  add_values [] g = g
  add_values ((key, value) ∷ rest) g =
      add_values rest
        (add_parameter (wrapped_value key (wrap_param_value value (value_type value))) g)

  abbrev file_errors : String → Gathered → Option String
  file_errors file_path g = elim g.errors [
    | [] ↦ none
    | e ∷ es ↦ some (
        concat (
          "errors while unmarshaling following keys of the parameter file "
          ∷ file_path
          ∷ ": "
          ∷ join_errors (e ∷ es)
          ∷ []))
  ]

  abbrev pub read_values :
      String
      → List (String × String)
      → Result String (List (String × YamlValue J))
      → List (String × String) × Option String
  read_values file_path parameters (err e) = (
    parameters,
    some (concat ("error unmarshalling content of parameter file " ∷ file_path ∷ ": " ∷ e ∷ [])),
  )
  read_values file_path parameters (ok values) =
      let g = add_values values (record { parameters = parameters; errors = [] }) in
      (g.parameters, file_errors file_path g)

  -- The parameters that were written into the given map, and an error.
  unfoldable pub get_parameters_from_file :
      String → String → List (String × String) → List (String × String) × Option String
  unfolding add_values join_errors
  get_parameters_from_file file_path bytes parameters =
      read_values file_path parameters (files.unmarshal bytes)

  abbrev or_error : List String → Option String → List String
  or_error errs none = errs
  or_error errs (some e) = errs ++ e ∷ []

  abbrev pub add_file : String → Result String String → Gathered → Gathered
  add_file file_path (err e) g = record {
    parameters = g.parameters;
    errors =
        g.errors ++ concat ("error reading from parameter file " ∷ file_path ∷ ": " ∷ e ∷ []) ∷ [];
  }
  add_file file_path (ok raw) g =
      let (parameters, e) = get_parameters_from_file file_path raw g.parameters in
      record { parameters = parameters; errors = or_error g.errors e }

  unfoldable pub add_files : List String → Gathered → Gathered
  unfolding get_parameters_from_file
  add_files [] g = g
  add_files (p ∷ rest) g = add_files rest (add_file p (files.read_file p) g)

  abbrev pub get_params_from_files : List String → Gathered
  get_params_from_files file_paths = add_files file_paths none_gathered

  abbrev pub no_errors :
      List String → List (String × String) → Result String (List (String × String))
  no_errors [] params = ok params
  no_errors (e ∷ es) params = err (join_errors (e ∷ es))

  unfoldable pub get_parameter_map :
      List String → List String → Result String (List (String × String))
  unfolding get_params_from_cmdline add_files merge_params
  get_parameter_map raw file_paths =
      let cmdline = get_params_from_cmdline raw in
      let from_files = get_params_from_files file_paths in
      no_errors (cmdline.errors ++ from_files.errors)
        (merge_params cmdline.parameters from_files.parameters)
