-- ===== src/Verifier/Templates.antt =====
-- pkg/kudoctl/packages/verifier/template: verify_references.go, and of verify_parameters.go all but the checks of
-- values against their types.
use kudo.Prelude.{
  String, Bool, true, not, ◌&&◌, List, [], ◌∷◌, none, some, Result, ◌==◌, if◌then◌else◌, concat,
}
use kudo.Prelude.Maps.{has_key, insert}
use kudo.Api.Operator.{Task}
use kudo.Api.Parameters.{is_true, is_set}
use kudo.Renderer.Variables.{Variable, new_variable_map, with_defaults}
use kudo.Repository.Lookup.{contains_text}
use kudo.Verifier.Files.{
  PackageParameter, Group, Files, VerifierResult, new_result, add_error, add_warning,
  undefined_template, unreferenced_template, undefined_parameter, undefined_toggle_parameter,
  unused_parameter, invalid_implicit, unreadable_template, parameter_error, group_error,
}
use kudo.Verifier.References.{range}
use kudo.Verifier.Nodes.{Node, TemplateNodes, get_node_map}

-- The templates that a task names.
unfoldable pub required_by : Task → List String
required_by t =
    if t.kind == "Apply"
    then t.spec.resources
    else if t.kind == "Delete"
    then t.spec.resources
    else if t.kind == "Toggle"
    then t.spec.resources
    else if t.kind == "Pipe"
    then t.spec.pod ∷ []
    else if t.kind == "KudoOperator"
    then (if t.spec.parameter_file == "" then [] else t.spec.parameter_file ∷ [])
    else []

unfoldable pub check_template :
    List (String × String) → String → String → VerifierResult → VerifierResult
check_template templates task r res =
    if has_key r templates then res else add_error (undefined_template r task) res

unfoldable pub check_required : List (String × String) → Task → VerifierResult → VerifierResult
unfolding required_by
check_required templates t = range (check_template templates t.name) (required_by t)

abbrev pub require : String → List (String × Bool) → List (String × Bool)
require r set = insert r true set

abbrev pub required_templates : List Task → List (String × Bool)
required_templates tasks = range (λ (t : Task). range require (required_by t)) tasks []

unfoldable pub check_referenced :
    String → List (String × Bool) → String × String → VerifierResult → VerifierResult
check_referenced manifest required (template, file) res =
    if template == manifest
    then res
    else (if has_key template required
        then res
        else add_warning (unreferenced_template template) res)

module _ {J : Type 0} (pf : Files J) where
  -- `ReferenceVerifier.Verify`
  unfoldable pub verify_template_references : VerifierResult
  unfolding check_required check_referenced
  verify_template_references =
      range (check_referenced pf.operator.namespace_manifest (required_templates pf.operator.tasks))
        pf.templates (range (check_required pf.templates) pf.operator.tasks new_result)

  abbrev pub set_of : List (PackageParameter J) → List (String × Bool)
  set_of parameters = range (λ (p : PackageParameter J). require p.name) parameters []

  unfoldable pub check_parameter :
      List (String × Bool) → String → String → VerifierResult → VerifierResult
  check_parameter params fname p res =
      if has_key p params then res else add_error (undefined_parameter p fname) res

  unfoldable pub check_nodes :
      List (String × Bool) → String × TemplateNodes → VerifierResult → VerifierResult
  unfolding check_parameter
  check_nodes params (fname, nodes) = range (check_parameter params fname) nodes.parameters

  unfoldable pub check_toggle : List (String × Bool) → Task → VerifierResult → VerifierResult
  check_toggle params t res =
      if (t.kind == "Toggle") && not (t.spec.parameter == "")
      then (if has_key t.spec.parameter params
          then res
          else add_error (undefined_toggle_parameter t.spec.parameter t.name) res)
      else res

  unfoldable pub check_immutable : PackageParameter J → VerifierResult → VerifierResult
  check_immutable p res =
      if is_true p.immutable && not (is_set p.default) && not (is_true p.required)
      then add_error
          (parameter_error p.name
            "is immutable but is not marked as required or has a default value")
          res
      else res

  unfoldable pub immutable_params : VerifierResult
  unfolding check_immutable
  immutable_params = range check_immutable pf.params.parameters new_result

  unfoldable pub check_metadata : PackageParameter J → VerifierResult → VerifierResult
  check_metadata p res =
      let res' =
        if not (p.group == "") && contains_text p.group "/"
        then add_error (parameter_error p.name "has a group with invalid character '/'") res
        else res in
      if is_true p.advanced && not (is_set p.default) && is_true p.required
      then add_error
          (parameter_error p.name
            "is marked as advanced, but also as required and has no default. An advanced parameter must either be optional or have a default value")
          res'
      else res'

  unfoldable pub metadata : VerifierResult
  unfolding check_metadata
  metadata = range check_metadata pf.params.parameters new_result

  -- The map of the groups, and the result.
  abbrev add_group :
      Group → List (String × Group) × VerifierResult → List (String × Group) × VerifierResult
  add_group g (groups, res) =
      let res' =
        if contains_text g.name "/"
        then add_error (group_error g.name "contains invalid character '/'") res
        else res in
      (
        insert g.name g groups,
        if has_key g.name groups then add_error (group_error g.name "is duplicated") res' else res',
      )

  unfoldable pub check_group :
      List (String × Group) → PackageParameter J → VerifierResult → VerifierResult
  check_group groups p res =
      if p.group == ""
      then res
      else (if has_key p.group groups
          then res
          else add_error
              (parameter_error p.name (
                concat (
                  "has a group \"" ∷ p.group ∷ "\" that is not defined in the group section" ∷ [])))
              res)

  unfoldable pub param_groups : VerifierResult
  unfolding check_group
  param_groups =
      let (groups, res) = range add_group pf.params.groups ([], new_result) in
      range (check_group groups) pf.params.parameters res

  module _ (parse : String → String → Result String Node) where
    unfoldable pub params_not_defined : VerifierResult
    unfolding check_nodes check_toggle get_node_map
    params_not_defined =
        let params = set_of pf.params.parameters in
        range (check_toggle params) pf.operator.tasks
          (range (check_nodes params) (get_node_map parse pf.templates) new_result)

    abbrev use_toggle : Task → List (String × Bool) → List (String × Bool)
    use_toggle t set = if t.kind == "Toggle" then require t.spec.parameter set else set

    abbrev template_params : List (String × Bool)
    template_params = range use_toggle pf.operator.tasks (
        range (λ (n : String × TemplateNodes). range require (n.1).parameters)
          (get_node_map parse pf.templates) [])

    unfoldable pub check_param_used :
        List (String × Bool) → PackageParameter J → VerifierResult → VerifierResult
    check_param_used used p res =
        if has_key p.name used
        then res
        else (if p.trigger == "" then add_warning (unused_parameter p.name) res else res)

    unfoldable pub params_defined_not_used : VerifierResult
    unfolding check_param_used get_node_map
    params_defined_not_used =
        range (check_param_used template_params) pf.params.parameters new_result

    abbrev implicits : List (String × Variable J)
    implicits = with_defaults new_variable_map

    unfoldable pub check_implicit : String → String → VerifierResult → VerifierResult
    unfolding with_defaults
    check_implicit fname p res =
        if has_key p implicits then res else add_error (invalid_implicit fname p) res

    unfoldable pub check_implicits : String × TemplateNodes → VerifierResult → VerifierResult
    unfolding check_implicit
    check_implicits (fname, nodes) res = elim nodes.error [
      | some e ↦ add_error (unreadable_template fname e) res
      | none ↦ range (check_implicit fname) nodes.implicit_params res
    ]

    -- The last loop of `ParametersVerifier.Verify`.
    unfoldable pub implicit_params_defined : VerifierResult → VerifierResult
    unfolding check_implicits get_node_map
    implicit_params_defined = range check_implicits (get_node_map parse pf.templates)
