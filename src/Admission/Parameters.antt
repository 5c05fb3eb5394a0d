-- ===== src/Admission/Parameters.antt =====
-- pkg/webhook/instance_admission.go: what an update does to the parameters, the plan that it
-- triggers, and the checks of the parameters.
use kudo.Prelude.{
  String, Bool, true, false, not, ◌&&◌, List, [], ◌∷◌, Option, none, some, Result, ok, err, ◌>>=◌,
  ◌==◌, if◌then◌else◌,
}
use kudo.Prelude.Maps.{lookup, has_key, insert, delete}
use kudo.Libraries.{Packages}
use kudo.Api.Operator.{Parameter, OperatorVersion}
use kudo.Api.Instance.{Instance, update_plan_name, deploy_plan_name, plan_exists, select_plan}
use kudo.Api.Parameters.{
  is_immutable, Parsers, ValueError, validate_value, get_added_parameters, get_removed_param_defs,
  get_changed_param_defs, rich_parameter_diff, get_param_definitions,
}

-- The errors of `admitUpdate` and of what it calls.
pub data Denial : Type 0 where
  unknown_plan unknown_parameter undefined_trigger : String → Denial
  no_plan_for_update multiple_plans : Denial
  immutable_changed immutable_without_value added_without_value : String → Denial
  invalid_parameter : ValueError → Denial
  cleanup_override change_while_deleting only_cleanup : Denial
  other_plan_scheduled upgrade_while_scheduled upgrade_with_plan upgrade_with_update : Denial
  plan_override plan_cancellation update_with_plan update_with_override : Denial
  cleanup_by_user no_plan_for_upgrade : Denial
  no_deploy_plan : Denial

-- The loop over the changed parameters: the triggers that are set. An undefined one is an error.
unfoldable pub triggers : List Parameter → OperatorVersion → Result Denial (List String)
unfolding has_key
triggers [] ov = ok []
triggers (p ∷ rest) ov =
    let plans = triggers rest ov in
    if p.trigger == ""
    then plans
    else if plan_exists p.trigger ov
    then (plans >>= λ ts. ok (p.trigger ∷ ts))
    else err (undefined_trigger p.trigger)

abbrev pub fallback : Option String → Result Denial (Option String)
fallback none = err no_plan_for_update
fallback (some plan) = ok (some plan)

-- The `switch` on the number of plans that differ.
unfoldable pub one_plan : List String → OperatorVersion → Result Denial (Option String)
unfolding select_plan
one_plan [] ov = fallback (select_plan (update_plan_name ∷ deploy_plan_name ∷ []) ov)
one_plan (plan ∷ []) ov = ok (some plan)
one_plan (p ∷ q ∷ rest) ov = err multiple_plans

abbrev pub is_found : Option Parameter → Bool
is_found none = false
is_found (some p) = true

-- An error for a removed parameter leaves no removed definition at all.
abbrev pub or_nil : Result String (List Parameter) → List Parameter
or_nil (ok defs) = defs
or_nil (err e) = []

abbrev pub or_unknown : Result String (List Parameter) → Result Denial (List Parameter)
or_unknown (ok defs) = ok defs
or_unknown (err e) = err (unknown_parameter e)

module _ (packages : Packages) where
  unfoldable pub triggered_by_parameter_update :
      List Parameter → OperatorVersion → Result Denial (Option String)
  unfolding triggers one_plan
  triggered_by_parameter_update [] ov = ok none
  triggered_by_parameter_update (p ∷ ps) ov =
      triggers (p ∷ ps) ov >>= λ plans. one_plan (packages.uniq_string plans) ov

  -- The definitions that the old operator version had too.
  unfoldable pub known_before : List Parameter → OperatorVersion → List Parameter
  known_before [] old_ov = []
  known_before (p ∷ rest) old_ov =
      if is_found (packages.find old_ov.parameters (λ q. p.name == q.name))
      then p ∷ known_before rest old_ov
      else known_before rest old_ov

  unfoldable pub changed_parameters :
      List (String × String)
      → List (String × String)
      → OperatorVersion
      → OperatorVersion
      → Result Denial (List Parameter × List Parameter)
  unfolding known_before rich_parameter_diff get_param_definitions
  changed_parameters old new old_ov new_ov =
      let (changed_or_added, removed) = rich_parameter_diff old new in
      or_unknown (get_param_definitions packages changed_or_added new_ov) >>= λ defs.
      ok (known_before defs old_ov, or_nil (get_param_definitions packages removed new_ov))

abbrev same_bool : Bool → Bool → Bool
same_bool true b = b
same_bool false b = not b

abbrev pub is_equal_immutable : Parameter → Parameter → Bool
is_equal_immutable p1 p2 = same_bool (is_immutable p1) (is_immutable p2)

-- The three loops of `validateOVUpgrade`.
unfoldable pub check_changed : List (String × String) → List Parameter → Result Denial (Unit {0})
unfolding has_key
check_changed new [] = ok tt
check_changed new (p ∷ rest) =
    if is_immutable p && not (has_key p.name new)
    then err (immutable_without_value p.name)
    else check_changed new rest

unfoldable pub delete_removed : List (String × String) → List Parameter → List (String × String)
unfolding delete
delete_removed new [] = new
delete_removed new (p ∷ rest) = delete_removed (delete p.name new) rest

unfoldable pub check_added : List (String × String) → List Parameter → Result Denial (Unit {0})
unfolding has_key
check_added new [] = ok tt
check_added new (p ∷ rest) =
    if is_immutable p && not (has_key p.name new)
    then err (added_without_value p.name)
    else check_added new rest

-- The parameters of the new instance, without those that the new operator version dropped.
unfoldable pub validate_ov_upgrade :
    List (String × String)
    → OperatorVersion
    → OperatorVersion
    → Result Denial (List (String × String))
unfolding check_changed delete_removed check_added get_changed_param_defs get_added_parameters
validate_ov_upgrade new new_ov old_ov =
    check_changed new
      (get_changed_param_defs old_ov.parameters new_ov.parameters is_equal_immutable)
    >>= λ _.
        let left =
          delete_removed new (get_removed_param_defs old_ov.parameters new_ov.parameters) in
        check_added left (get_added_parameters old_ov.parameters new_ov.parameters) >>= λ _. ok left

unfoldable pub check_no_immutable : List Parameter → Result Denial (Unit {0})
check_no_immutable [] = ok tt
check_no_immutable (p ∷ rest) =
    if is_immutable p then err (immutable_changed p.name) else check_no_immutable rest

-- The parameters of the new instance after the check.
unfoldable pub check_immutable_parameters :
    List (String × String)
    → OperatorVersion
    → OperatorVersion
    → List Parameter
    → Bool
    → Result Denial (List (String × String))
unfolding check_no_immutable validate_ov_upgrade
check_immutable_parameters new new_ov old_ov changed_defs is_upgrade =
    if is_upgrade
    then validate_ov_upgrade new new_ov old_ov
    else check_no_immutable changed_defs >>= λ _. ok new

-- Go's read of a map: the empty text for a key that is not there.
abbrev pub value_or_empty : Option String → String
value_or_empty none = ""
value_or_empty (some v) = v

abbrev or_invalid : Result ValueError (Unit {0}) → Result Denial (Unit {0})
or_invalid (ok u) = ok u
or_invalid (err e) = err (invalid_parameter e)

unfoldable pub validate_all :
    Parsers → List Parameter → List (String × String) → Result Denial (Unit {0})
unfolding validate_value lookup
validate_all parsers [] values = ok tt
validate_all parsers (p ∷ rest) values =
    let others = validate_all parsers rest values in
    or_invalid (validate_value parsers p (value_or_empty (lookup p.name values))) >>= λ _. others

abbrev pub validate_parameters : Parsers → OperatorVersion → Instance → Result Denial (Unit {0})
validate_parameters parsers ov instance' =
    validate_all parsers ov.parameters instance'.spec.parameters

abbrev pub set_default : Parameter → List (String × String) → Option String → List (String × String)
set_default p values none = values
set_default p values (some d) =
    if is_immutable p && not (has_key p.name values) then insert p.name d values else values

unfoldable pub set_defaults : List Parameter → List (String × String) → List (String × String)
unfolding has_key insert
set_defaults [] values = values
set_defaults (p ∷ rest) values = set_defaults rest (set_default p values p.default)

unfoldable pub set_immutable_parameter_defaults : OperatorVersion → Instance → Instance
unfolding set_defaults
set_immutable_parameter_defaults ov i = record i {
  spec = record i.spec { parameters = set_defaults ov.parameters i.spec.parameters };
}
