-- ===== src/Controller/Statuses.antt =====
-- The plan statuses that a reconciliation works with have the shape of the operator version's plans.
use kudo.Prelude.{
  ◌≡◌, refl, inl, inr, String, false, List, [], ◌∷◌, some, ◌==◌, map, arith, eq_iff, Bool-cases,
  Option-cases,
}
use kudo.Prelude.Maps.{lookup, insert, has_key, lookup-insert}
use kudo.Api.PhaseStatus.{PhaseStatus, find_step}
use kudo.Api.PhaseStatus.Find.{step_names, find_step_name}
use kudo.Api.PlanStatus.{PlanStatus, find_phase}
use kudo.Api.PlanStatus.Find.{phase_names, find_phase_name}
use kudo.Api.Operator.{Step, Phase, Plan, OperatorVersion}
use kudo.Api.Instance.{Instance}
use kudo.Controller.Plans.{
  rebuild_steps, written, rebuild_phases, plan_or_fresh, rebuild_plan, rebuild_plans,
  ensure_plan_status_initialized, fresh_phase,
}

-- The names of a plan's phases, and of the steps of each, as the operator version has them.
abbrev pub spec_step_names : List Step → List String
spec_step_names = map (λ s. s.name)

abbrev pub spec_names : List Phase → List (String × List String)
spec_names = map (λ p. (p.name, spec_step_names p.steps))

step_names-rebuild :
    (p : PhaseStatus) (steps : List Step)
    → step_names (rebuild_steps p steps) ≡ spec_step_names steps
unfolding rebuild_steps
step_names-rebuild p [] = refl
step_names-rebuild p (st ∷ rest) = elim (Option-cases (find_step st.name p.steps)) [
  | inl e ↦ ground (arith, e, step_names-rebuild p rest)
  | inr (s, e) ↦ ground (arith, e, find_step_name st.name p.steps s e, step_names-rebuild p rest)
]

phase_names-rebuild :
    (old : List PhaseStatus) (phases : List Phase)
    → phase_names (rebuild_phases old phases) ≡ spec_names phases
unfolding rebuild_phases
phase_names-rebuild old [] = refl
phase_names-rebuild old (ph ∷ rest) = elim (Option-cases (find_phase ph.name old)) [
  | inl e ↦ ground (
    arith,
    e,
    step_names-rebuild (fresh_phase ph.name) ph.steps,
    phase_names-rebuild (written ph old) rest,
  )
  | inr (p, e) ↦ ground (
    arith,
    e,
    find_phase_name ph.name old p e,
    step_names-rebuild p ph.steps,
    phase_names-rebuild (written ph old) rest,
  )
]

-- No key of a map occurs twice.
abbrev pub Distinct : List (String × Plan) → Type 0
Distinct [] = Unit
Distinct ((name, plan) ∷ rest) = (has_key name rest ≡ false) × Distinct rest

lookup-rebuild_other :
    (name : String) (plans : List (String × Plan)) (statuses : List (String × PlanStatus))
    → has_key name plans ≡ false
    → lookup name (rebuild_plans statuses plans) ≡ lookup name statuses
unfolding rebuild_plans has_key
lookup-rebuild_other name [] statuses h = refl
lookup-rebuild_other name ((k, plan) ∷ rest) statuses h =
    let s = rebuild_plan plan (plan_or_fresh k (lookup k statuses)) in
    ground
      (arith, lookup-rebuild_other name rest (insert k s statuses), lookup-insert k name s statuses)

lookup-rebuild :
    (name : String) (plan : Plan) (plans : List (String × Plan))
    (statuses : List (String × PlanStatus))
    → Distinct plans
    → lookup name plans ≡ some plan
    → (s : PlanStatus) × (lookup name (rebuild_plans statuses plans) ≡ some s)
      × (phase_names s.phases ≡ spec_names plan.phases)
unfolding rebuild_plans lookup
lookup-rebuild name plan [] statuses d h = cc
lookup-rebuild name plan ((k, p) ∷ rest) statuses d h = elim (Bool-cases (k == name)) [
  | inr e ↦ lookup-rebuild name plan rest _ d.1 (rw e at h)
  | inl e ↦
      let t = plan_or_fresh k (lookup k statuses) in
      let s = rebuild_plan p t in
      (
        s,
        ground (
          arith,
          e,
          eq_iff k name,
          d.0,
          lookup-rebuild_other k rest (insert k s statuses),
          lookup-insert k name s statuses,
        ),
        ground (arith, h, e, phase_names-rebuild t.phases p.phases),
      )
]

-- Every plan of the operator version has a status in the initialized instance, whose phases and
-- steps are those of the plan, in the plan's order, whatever statuses the instance had before. The
-- keys of the operator version's plans are distinct, as those of a Go map are.
pub ensure_plan_status_initialized-names :
    (i : Instance) (ov : OperatorVersion) (name : String) (plan : Plan)
    → Distinct ov.plans
    → lookup name ov.plans ≡ some plan
    → (s : PlanStatus) × (lookup name (ensure_plan_status_initialized i ov).status.plan_status
        ≡ some s)
      × (phase_names s.phases ≡ spec_names plan.phases)
unfolding ensure_plan_status_initialized
ensure_plan_status_initialized-names i ov name plan d h =
    lookup-rebuild name plan ov.plans i.status.plan_status d h
