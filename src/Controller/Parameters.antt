-- ===== src/Controller/Parameters.antt =====
-- The values that a plan's templates are rendered with.
use kudo.Prelude.{◌≡◌, ◌∙◌, String, false, List, [], ◌∷◌, some, ok, >>=-eq-ok, arith, eq_iff, All}
use kudo.Prelude.Maps.{lookup, insert, lookup-insert}
use kudo.Api.Operator.{Parameter, OperatorVersion}
use kudo.Api.Instance.{Instance}
use kudo.Api.Parameters.{has_def}
use kudo.Tasks.Run.{Value}
use kudo.Controller.Prepare.{Yaml, unwrap_param_value, value_or_default, add_params, params_map}

-- No two definitions have one name.
abbrev pub DistinctNames : List Parameter → Type 0
DistinctNames [] = Unit
DistinctNames (p ∷ rest) = (has_def p.name rest ≡ false) × DistinctNames rest

module _ {Y : Type 0} (yaml : Yaml Y) where
  -- The value of the instance or else the default, unwrapped by the type of the parameter.
  abbrev pub Given : List (String × String) → List (String × Value Y) → Parameter → Type 0
  Given values params p =
      (v : Value Y) × (unwrap_param_value yaml (value_or_default yaml (lookup p.name values) p)
          p.value_type
        ≡ ok v)
      × (lookup p.name params ≡ some v)

  add_params-others :
      (key : String) (values : List (String × String)) (ps : List Parameter)
      (before after : List (String × Value Y))
      → has_def key ps ≡ false
      → add_params yaml values ps before ≡ ok after
      → lookup key after ≡ lookup key before
  unfolding add_params has_def
  add_params-others key values [] before after h done = ground (arith, done)
  add_params-others key values (p ∷ rest) before after h done =
      let (v, a, b) =
        >>=-eq-ok
          (unwrap_param_value yaml (value_or_default yaml (lookup p.name values) p) p.value_type) _
          done in
      add_params-others key values rest (insert p.name v before) after (ground (arith, h)) b
      ∙ lookup-insert p.name key v before
      ∙ ground (arith, h, eq_iff p.name key, eq_iff key p.name)

  add_params-Given :
      (values : List (String × String)) (ps : List Parameter)
      (before after : List (String × Value Y))
      → DistinctNames ps
      → add_params yaml values ps before ≡ ok after
      → All (Given values after) ps
  unfolding add_params
  add_params-Given values [] before after h done = tt
  add_params-Given values (p ∷ rest) before after (fresh, h) done =
      let (v, a, b) =
        >>=-eq-ok
          (unwrap_param_value yaml (value_or_default yaml (lookup p.name values) p) p.value_type) _
          done in
      (
        (
          v,
          a,
          add_params-others p.name values rest (insert p.name v before) after fresh b
              ∙ lookup-insert p.name p.name v before
              ∙ ground (arith, eq_iff p.name p.name),
        ),
        add_params-Given values rest (insert p.name v before) after h b,
      )

  -- If `ParamsMap` returns no error and no two parameters of the operator version have one name, then
  -- each of them has a value in the map: the instance's value, or the default if there is none,
  -- unwrapped by the type of the parameter.
  pub params_map-Given :
      (i : Instance) (ov : OperatorVersion) (params : List (String × Value Y))
      → DistinctNames ov.parameters
      → params_map yaml i ov ≡ ok params
      → All (Given i.spec.parameters params) ov.parameters
  params_map-Given i ov params h done =
      add_params-Given i.spec.parameters ov.parameters [] params h done
