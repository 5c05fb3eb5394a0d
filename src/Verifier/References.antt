-- ===== src/Verifier/References.antt =====
-- pkg/kudoctl/packages/verifier/task/verify_references.go and plan/verify_references.go: whether the
-- tasks that plans name and the plans that parameters trigger are there.
use kudo.Prelude.{String, Bool, true, List, [], ◌∷◌, ◌==◌, if◌then◌else◌}
use kudo.Prelude.Maps.{has_key, insert}
use kudo.Api.Operator.{Task, Step, Phase, Plan}
use kudo.Verifier.Files.{
  PackageParameter, Files, undefined_task, unused_task, undefined_plan, no_mandatory_plan,
  VerifierResult, new_result, add_error, add_warning, merge,
}

-- A `range` loop that changes one variable.
abbrev pub range : {A R : Type 0} → (A → R → R) → List A → R → R
range f [] r = r
range f (x ∷ xs) r = range f xs (f x r)

unfoldable pub define : Task → List (String × Bool) → List (String × Bool)
define t set = insert t.name true set

abbrev pub defined_tasks : List Task → List (String × Bool)
defined_tasks tasks = range define tasks []

unfoldable pub check_task : List (String × Bool) → String → String → VerifierResult → VerifierResult
check_task defined plan t r = if has_key t defined then r else add_error (undefined_task t plan) r

unfoldable pub check_step : List (String × Bool) → String → Step → VerifierResult → VerifierResult
check_step defined plan st = range (check_task defined plan) st.tasks

unfoldable pub check_phase : List (String × Bool) → String → Phase → VerifierResult → VerifierResult
check_phase defined plan ph = range (check_step defined plan) ph.steps

unfoldable pub check_plan : List (String × Bool) → String × Plan → VerifierResult → VerifierResult
check_plan defined (name, plan) = range (check_phase defined name) plan.phases

abbrev pub use_task : String → List (String × Bool) → List (String × Bool)
use_task t set = insert t true set

abbrev pub used_tasks : List (String × Plan) → List (String × Bool)
used_tasks plans =
    range
      (λ (p : String × Plan).
        range (λ (ph : Phase). range (λ (st : Step). range use_task st.tasks) ph.steps)
          (p.1).phases)
      plans []

abbrev pub check_used : List (String × Bool) → Task → VerifierResult → VerifierResult
check_used used t r = if has_key t.name used then r else add_warning (unused_task t.name) r

module _ {J : Type 0} where
  unfoldable pub tasks_not_defined : Files J → VerifierResult
  tasks_not_defined pf =
      range (check_plan (defined_tasks pf.operator.tasks)) pf.operator.plans new_result

  unfoldable pub tasks_defined_not_used : Files J → VerifierResult
  tasks_defined_not_used pf =
      range (check_used (used_tasks pf.operator.plans)) pf.operator.tasks new_result

  unfoldable pub verify_tasks : Files J → VerifierResult
  verify_tasks pf = merge (merge new_result (tasks_not_defined pf)) (tasks_defined_not_used pf)

  unfoldable pub has_mandatory_plans : Files J → VerifierResult
  has_mandatory_plans pf =
      if has_key "deploy" pf.operator.plans
      then new_result
      else add_error (no_mandatory_plan "deploy") new_result

  unfoldable pub check_trigger :
      List (String × Plan) → PackageParameter J → VerifierResult → VerifierResult
  check_trigger plans p r =
      if p.trigger == ""
      then r
      else (if has_key p.trigger plans then r else add_error (undefined_plan p.trigger p.name) r)

  unfoldable pub plans_not_defined : Files J → VerifierResult
  plans_not_defined pf = range (check_trigger pf.operator.plans) pf.params.parameters new_result

  unfoldable pub verify_plans : Files J → VerifierResult
  verify_plans pf = merge (merge new_result (plans_not_defined pf)) (has_mandatory_plans pf)
