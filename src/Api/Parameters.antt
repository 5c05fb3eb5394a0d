-- ===== src/Api/Parameters.antt =====
-- pkg/apis/kudo/v1beta1/parameter_types_helpers.go: the checks of parameter values, and the
-- differences between two maps of values and between two lists of definitions; from
-- instance_types_helpers.go the search for the definitions of a map's keys.

use kudo.Prelude.{
  String, Bool, true, false, not, ◌&&◌, List, [], ◌∷◌, ◌++◌, Option, none, some, Result, ok, err,
  ◌>>=◌, ◌==◌, if◌then◌else◌,
}
use kudo.Prelude.Maps.{lookup, has_key, insert}
use kudo.Libraries.{Packages}
use kudo.Api.Operator.{
  ParameterType, string, integer, number, boolean, array, map_type, untyped, Parameter,
  OperatorVersion,
}
use kudo.Tasks.Run.{parse_bool}

abbrev pub is_true : Option Bool → Bool
is_true none = false
is_true (some b) = b

abbrev pub is_immutable : Parameter → Bool
is_immutable p = is_true p.immutable

abbrev pub is_required : Parameter → Bool
is_required p = is_true p.required

abbrev pub is_set {ℓ} : {A : Type ℓ} → Option A → Bool
is_set none = false
is_set (some a) = true

abbrev pub is_enum : Parameter → Bool
is_enum p = is_set p.enum

abbrev pub has_default : Parameter → Bool
has_default p = is_set p.default

abbrev pub enum_values : Parameter → List String
enum_values p = elim p.enum [ none ↦ [] | some values ↦ values ]

-- A value of type `interface{}`, by its kind.
pub data RawValue : Type 0 where
  int_value uint_value float_value bool_value : RawValue
  slice_value array_value map_value struct_value : RawValue
  nil_value other_value : RawValue
  text : String → RawValue

-- `nil_panic`: `reflect.TypeOf(nil).Kind()`.
pub data TypeError : Type 0 where
  bad_format : ParameterType → TypeError
  nil_panic : TypeError

-- Parsers of Go's standard library and of sigs.k8s.io/yaml that accept a text or do not.
pub record Parsers : Type 0 where
  -- `strconv.ParseInt(v, 10, 64)` and `strconv.ParseFloat(v, 64)`.
  pub is_int : String → Bool
  pub is_float : String → Bool
  -- `yaml.Unmarshal` into a slice and into a map with string keys.
  pub is_yaml_list : String → Bool
  pub is_yaml_map : String → Bool

abbrev check : Bool → ParameterType → Result TypeError (Unit {0})
check true t = ok tt
check false t = err (bad_format t)

abbrev pub is_bool_text : String → Bool
is_bool_text s = is_set (parse_bool s)

module _ (parsers : Parsers) where
  unfoldable pub validate_integer_type : RawValue → Result TypeError (Unit {0})
  validate_integer_type int_value = ok tt
  validate_integer_type uint_value = ok tt
  validate_integer_type (text v) = check (parsers.is_int v) integer
  validate_integer_type _ = err (bad_format integer)

  unfoldable pub validate_number_type : RawValue → Result TypeError (Unit {0})
  validate_number_type int_value = ok tt
  validate_number_type uint_value = ok tt
  validate_number_type float_value = ok tt
  validate_number_type (text v) = check (parsers.is_float v) number
  validate_number_type _ = err (bad_format number)

  unfoldable pub validate_boolean_type : RawValue → Result TypeError (Unit {0})
  unfolding parse_bool
  validate_boolean_type bool_value = ok tt
  validate_boolean_type (text v) = check (is_bool_text v) boolean
  validate_boolean_type _ = err (bad_format boolean)

  unfoldable pub validate_array_type : RawValue → Result TypeError (Unit {0})
  validate_array_type nil_value = err nil_panic
  validate_array_type slice_value = ok tt
  validate_array_type array_value = ok tt
  validate_array_type (text v) = check (parsers.is_yaml_list v) array
  validate_array_type _ = err (bad_format array)

  unfoldable pub validate_map_type : RawValue → Result TypeError (Unit {0})
  validate_map_type nil_value = err nil_panic
  validate_map_type map_value = ok tt
  validate_map_type struct_value = ok tt
  validate_map_type (text v) = check (parsers.is_yaml_map v) map_type
  validate_map_type _ = err (bad_format map_type)

  unfoldable pub validate_string_type : RawValue → Result TypeError (Unit {0})
  validate_string_type (text v) = ok tt
  validate_string_type _ = err (bad_format string)

  unfoldable pub validate_parameter_value_for_type :
      ParameterType → RawValue → Result TypeError (Unit {0})
  unfolding validate_string_type validate_integer_type validate_number_type validate_boolean_type
      validate_array_type validate_map_type
  validate_parameter_value_for_type string v = validate_string_type v
  validate_parameter_value_for_type integer v = validate_integer_type v
  validate_parameter_value_for_type number v = validate_number_type v
  validate_parameter_value_for_type boolean v = validate_boolean_type v
  validate_parameter_value_for_type array v = validate_array_type v
  validate_parameter_value_for_type map_type v = validate_map_type v
  validate_parameter_value_for_type untyped v = ok tt

-- `pValue == eValue`: only a text equals a text.
abbrev pub equals_text : RawValue → String → Bool
equals_text (text v) e = v == e
equals_text _ e = false

unfoldable pub validate_parameter_value_for_enum : List String → RawValue → Bool
validate_parameter_value_for_enum [] v = false
validate_parameter_value_for_enum (e ∷ rest) v =
    if equals_text v e then true else validate_parameter_value_for_enum rest v

pub data ValueError : Type 0 where
  required_unset : String → ValueError
  invalid_value : String → TypeError → ValueError
  not_in_enum : String → ValueError

abbrev for_parameter : String → Result TypeError (Unit {0}) → Result ValueError (Unit {0})
for_parameter name (ok u) = ok u
for_parameter name (err e) = err (invalid_value name e)

abbrev in_enum : Parameter → RawValue → Result ValueError (Unit {0})
in_enum p v =
    if is_enum p && not (validate_parameter_value_for_enum (enum_values p) v)
    then err (not_in_enum p.name)
    else ok tt

unfoldable pub validate_value : Parsers → Parameter → String → Result ValueError (Unit {0})
unfolding validate_parameter_value_for_type validate_parameter_value_for_enum
validate_value parsers p value =
    if is_required p && not (has_default p) && value == ""
    then err (required_unset p.name)
    else if value == ""
    then ok tt
    else for_parameter p.name (validate_parameter_value_for_type parsers p.value_type (text value))
      >>= λ _. in_enum p (text value)

-- The inner loop of `GetAddedParameters`: is there a definition of this name?
unfoldable pub has_def : String → List Parameter → Bool
has_def name [] = false
has_def name (p ∷ rest) = if name == p.name then true else has_def name rest

unfoldable pub get_added_parameters : List Parameter → List Parameter → List Parameter
unfolding has_def
get_added_parameters old [] = []
get_added_parameters old (p ∷ rest) =
    if has_def p.name old then get_added_parameters old rest else p ∷ get_added_parameters old rest

abbrev pub get_removed_param_defs : List Parameter → List Parameter → List Parameter
get_removed_param_defs old new = get_added_parameters new old

-- The inner loop of `GetChangedParamDefs`, for one definition of the old list.
unfoldable pub changed_for :
    (Parameter → Parameter → Bool) → Parameter → List Parameter → List Parameter
changed_for is_equal p1 [] = []
changed_for is_equal p1 (p2 ∷ rest) =
    if p1.name == p2.name && not (is_equal p1 p2)
    then p2 ∷ changed_for is_equal p1 rest
    else changed_for is_equal p1 rest

unfoldable pub get_changed_param_defs :
    List Parameter → List Parameter → (Parameter → Parameter → Bool) → List Parameter
unfolding changed_for
get_changed_param_defs [] ps is_equal = []
get_changed_param_defs (p1 ∷ rest) ps is_equal =
    changed_for is_equal p1 ps ++ get_changed_param_defs rest ps is_equal

-- The two loops of `RichParameterDiff`. Each meets a key once, as the keys of a map differ.
unfoldable pub removed_values :
    List (String × String) → List (String × String) → List (String × String)
unfolding has_key
removed_values new [] = []
removed_values new ((key, val) ∷ rest) =
    if has_key key new then removed_values new rest else (key, val) ∷ removed_values new rest

abbrev pub differs : Option String → String → Bool
differs none val = true
differs (some v) val = not (v == val)

unfoldable pub changed_values :
    List (String × String) → List (String × String) → List (String × String)
unfolding lookup
changed_values old [] = []
changed_values old ((key, val) ∷ rest) =
    if differs (lookup key old) val
    then (key, val) ∷ changed_values old rest
    else changed_values old rest

-- First what was changed or added, then what was removed.
unfoldable pub rich_parameter_diff :
    List (String × String)
    → List (String × String)
    → List (String × String) × List (String × String)
unfolding changed_values removed_values
rich_parameter_diff old new = (changed_values old new, removed_values new old)

unfoldable pub join : List (String × String) → List (String × String) → List (String × String)
unfolding insert
join changed [] = changed
join changed ((key, val) ∷ rest) = join (insert key val changed) rest

unfoldable pub parameter_diff :
    List (String × String) → List (String × String) → List (String × String)
unfolding rich_parameter_diff join
parameter_diff old new =
    let (changed, removed) = rich_parameter_diff old new in join changed removed

-- The error names the key with no definition.
unfoldable pub get_param_definitions :
    Packages → List (String × String) → OperatorVersion → Result String (List Parameter)
get_param_definitions packages [] ov = ok []
get_param_definitions packages ((key, val) ∷ rest) ov =
    let defs = get_param_definitions packages rest ov in
    elim (packages.find ov.parameters (λ e. e.name == key)) [
      | none ↦ err key
      | some p ↦ defs >>= λ ps. ok (p ∷ ps)
    ]
