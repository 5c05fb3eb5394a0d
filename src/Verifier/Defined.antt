-- ===== src/Verifier/Defined.antt =====
-- What a package without errors refers to is there.
use kudo.Prelude.{
  ◌≡◌, refl, ◌↔◌, ◌⊎◌, ◌≢◌, inl, inr, String, Bool, true, false, List, [], ◌∷◌, none, All,
  Bool-cases, ◌==◌, if◌then◌else◌, arith, eq_iff, ◌++◌, is_empty, ◌∙◌, ap,
}
use kudo.Prelude.Maps.{has_key, insert, has_key-insert}
use kudo.Api.Operator.{Task, Step, Phase, Plan}
use kudo.Workflow.Loop.{find_task}
use kudo.Verifier.Files.{
  PackageParameter, Files, VerifierResult, new_result, add_error, is_valid, undefined_task,
  undefined_plan, no_mandatory_plan, Message,
}
use kudo.Verifier.References.{
  range, define, check_used, used_tasks, defined_tasks, check_task, check_step, check_phase,
  check_plan, tasks_not_defined, tasks_defined_not_used, verify_tasks, has_mandatory_plans,
  check_trigger, plans_not_defined, verify_plans,
}

-- After the step there are no errors exactly when there were none and `P` holds.
abbrev pub Checks : (VerifierResult → VerifierResult) → Type 0 → Type 0
Checks f P = (r : VerifierResult) → (is_valid (f r) ≡ true) ↔ ((is_valid r ≡ true) × P)

pub Checks-range :
    {A : Type 0} (f : A → VerifierResult → VerifierResult) (P : A → Type 0)
    → ((x : A) → Checks (f x) (P x))
    → (xs : List A) → Checks (range f xs) (All P xs)
Checks-range f P each [] r = (λ h. (h, tt), λ h. h.0)
Checks-range f P each (x ∷ xs) r =
    let later = Checks-range f P each xs (f x r) in
    let now = each x r in
    (
      λ h. ((now.0 (later.0 h).0).0, ((now.0 (later.0 h).0).1, (later.0 h).1)),
      λ h. later.1 (now.1 (h.0, h.1.0), h.1.1),
    )

pub is_empty-add_error : (e : Message) (es : List Message) → is_empty (es ++ e ∷ []) ≡ false
is_empty-add_error e [] = refl
is_empty-add_error e (x ∷ es) = refl

is_empty-append :
    (xs ys : List Message)
    → (is_empty (xs ++ ys) ≡ true) ↔ ((is_empty xs ≡ true) × (is_empty ys ≡ true))
is_empty-append [] ys = (λ h. (refl, h), λ h. h.1)
is_empty-append (x ∷ xs) ys = (λ h. cc, λ h. cc)

has_key-kept :
    (tasks : List Task) (t : String) (set : List (String × Bool))
    → has_key t set ≡ true
    → has_key t (range define tasks set) ≡ true
unfolding define
has_key-kept [] t set h = h
has_key-kept (x ∷ rest) t set h =
    has_key-kept rest t (insert x.name true set)
      (ground (arith, h, has_key-insert x.name t true set))

has_key-undefined :
    (tasks : List Task) (t : String) (set : List (String × Bool))
    → find_task t tasks ≡ none
    → has_key t (range define tasks set) ≡ has_key t set
unfolding define find_task
has_key-undefined [] t set h = refl
has_key-undefined (x ∷ rest) t set h =
    has_key-undefined rest t (insert x.name true set) (ground (arith, h))
    ∙ ground (arith, h, has_key-insert x.name t true set)

has_key-defined :
    (tasks : List Task) (t : String) (set : List (String × Bool))
    → find_task t tasks ≢ none
    → has_key t (range define tasks set) ≡ true
unfolding define find_task
has_key-defined [] t set h = absurd (h refl)
has_key-defined (x ∷ rest) t set h = elim (Bool-cases (x.name == t)) [
  | inl e ↦
      has_key-kept rest t (insert x.name true set)
        (ground (arith, e, has_key-insert x.name t true set))
  | inr e ↦ has_key-defined rest t (insert x.name true set) (rw e at h)
]

module _ (tasks : List Task) where
  abbrev IsDefined : String → Type 0
  IsDefined t = find_task t tasks ≢ none

  abbrev StepDefined : Step → Type 0
  StepDefined st = All IsDefined st.tasks

  abbrev PhaseDefined : Phase → Type 0
  PhaseDefined ph = All StepDefined ph.steps

  abbrev pub PlanDefined : String × Plan → Type 0
  PlanDefined np = All PhaseDefined (np.1).phases

  check_task-Checks :
      (plan t : String) → Checks (check_task (defined_tasks tasks) plan t) (IsDefined t)
  unfolding check_task has_key
  check_task-Checks plan t r = elim (Bool-cases (has_key t (defined_tasks tasks))) [
    | inl e ↦ (
      λ h. (rw e at h, λ missing. cc (has_key-undefined tasks t [] missing, e)),
      λ h. ground (arith, e, h.0),
    )
    | inr e ↦ (
      λ h. absurd (ground (arith, e, h, is_empty-add_error (undefined_task t plan) r.errors)),
      λ h. cc (has_key-defined tasks t [] h.1, e),
    )
  ]

  check_plan-Checks :
      (np : String × Plan) → Checks (check_plan (defined_tasks tasks) np) (PlanDefined np)
  unfolding check_plan check_phase check_step
  check_plan-Checks (name, plan) =
      Checks-range _ PhaseDefined
        (λ ph.
          Checks-range _ StepDefined
            (λ st. Checks-range _ IsDefined (check_task-Checks name) st.tasks) ph.steps)
        plan.phases

errors-used :
    (used : List (String × Bool)) (tasks : List Task) (r : VerifierResult)
    → (range (check_used used) tasks r).errors ≡ r.errors
errors-used used [] r = refl
errors-used used (t ∷ rest) r = errors-used used rest (check_used used t r) ∙ ground arith

module _ {J : Type 0} (pf : Files J) where
  -- The verifier of tasks returns no error exactly when each task that a step of a plan names is
  -- found among the operator's tasks.
  pub verify_tasks-valid_iff :
      (is_valid (verify_tasks pf) ≡ true) ↔ All (PlanDefined pf.operator.tasks) pf.operator.plans
  unfolding verify_tasks tasks_not_defined tasks_defined_not_used
  verify_tasks-valid_iff =
      let tasks = pf.operator.tasks in
      let all =
        Checks-range (check_plan (defined_tasks tasks)) (PlanDefined tasks)
          (check_plan-Checks tasks) pf.operator.plans new_result in
      let unused = errors-used (used_tasks pf.operator.plans) tasks new_result in
      (
        λ h. (all.0 ((is_empty-append _ _).0 h).0).1,
        λ k. (is_empty-append _ _).1 (all.1 (refl, k), ap is_empty unused),
      )

  abbrev pub TriggerDefined : PackageParameter J → Type 0
  TriggerDefined p = (p.trigger ≡ "") ⊎ (has_key p.trigger pf.operator.plans ≡ true)

  check_trigger-Checks :
      (p : PackageParameter J) → Checks (check_trigger pf.operator.plans p) (TriggerDefined p)
  unfolding check_trigger
  check_trigger-Checks p r = elim (Bool-cases (p.trigger == "")) [
    | inl e ↦ (λ h. (rw e at h, inl ((eq_iff p.trigger "").0 e)), λ h. ground (arith, e, h.0))
    | inr e ↦ elim (Bool-cases (has_key p.trigger pf.operator.plans)) [
      | inl f ↦ (λ h. (rw (e, f) at h, inr f), λ h. ground (arith, e, f, h.0))
      | inr f ↦ (
        λ h. absurd (
            ground (arith, e, f, h, is_empty-add_error (undefined_plan p.trigger p.name) r.errors)),
        λ h. elim h.1 [
          | inl g ↦ absurd (ground (arith, e, (eq_iff p.trigger "").1 g))
          | inr g ↦ cc (f, g)
        ],
      )
    ]
  ]

  -- The verifier of plans returns no error exactly when there is a plan 'deploy' and each trigger of
  -- a parameter is empty or the name of a plan.
  pub verify_plans-valid_iff :
      (is_valid (verify_plans pf) ≡ true)
      ↔ (All TriggerDefined pf.params.parameters × (has_key "deploy" pf.operator.plans ≡ true))
  unfolding verify_plans plans_not_defined has_mandatory_plans
  verify_plans-valid_iff =
      let plans = pf.operator.plans in
      let all =
        Checks-range (check_trigger plans) TriggerDefined check_trigger-Checks pf.params.parameters
          new_result in
      let deploy = mandatory (has_key "deploy" plans) in
      (
        λ h. let both = (is_empty-append _ _).0 h in ((all.0 both.0).1, deploy.0 both.1),
        λ k. (is_empty-append _ _).1 (all.1 (refl, k.0), deploy.1 k.1),
      )
    where
      mandatory :
          (b : Bool)
          → (is_valid (if b then new_result else add_error (no_mandatory_plan "deploy") new_result)
              ≡ true)
            ↔ (b ≡ true)
      mandatory true = (λ h. refl, λ h. refl)
      mandatory false = (λ h. h, λ h. h)
