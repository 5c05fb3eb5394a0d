-- ===== src/Workflow/Steps.antt =====
-- A phase that `Execute` makes COMPLETE has every step of its spec COMPLETE.
use kudo.Prelude.{
  ℕ, ◌≡◌, refl, ◌∙◌, inl, inr, String, true, false, List, [], ◌∷◌, some, arith, is_empty,
  Bool-cases, Option-cases, ◌==◌, eq_iff,
}
use kudo.Api.ExecutionStatus.{
  ExecutionStatus, in_progress, fatal_error, error_status, complete, is_finished, is_running,
}
use kudo.Api.StepStatus
use kudo.Api.StepStatus.{StepStatus}
use kudo.Api.PhaseStatus
use kudo.Api.PhaseStatus.{PhaseStatus, find_step, modify_step, update_step}
use kudo.Api.PhaseStatus.Find.{find-modify_step_self, find-modify_step_other}
use kudo.Api.PlanStatus
use kudo.Api.PlanStatus.{PlanStatus, find_phase, modify_phase, update_phase}
use kudo.Api.PlanStatus.Find.{set-phases, find-modify_phase_self, find-modify_phase-none}
use kudo.Api.Operator.{Step, Phase}
use kudo.Engine.{Metadata}
use kudo.Tasks.Run.{Cluster}
use kudo.Workflow.Loop.{ActivePlan, Loop, Outcome, ended, aborted}
use kudo.Workflow.Execute.{
  is_serial, fail_step, set_step, enter_step, step_of, run_task, run_tasks, finish_step, run_step,
  run_steps,
}
use kudo.Workflow.Cases.{
  flow_plan, outcome_plan, continue_cases, run_task_cases, run_step_cases, started_step,
}

-- The steps of the phase `n` but `m` are the same in both plans.
abbrev pub SameSteps : String → String → PlanStatus → PlanStatus → Type 0
SameSteps n m a b = (k : String) → (m == k) ≡ false → step_of n k b ≡ step_of n k a

-- A write to the phase that leaves the step `k` alone.
pub step_of-update_phase :
    (n k : String) (f : PhaseStatus → PhaseStatus) (a : PlanStatus)
    → ((p : PhaseStatus) → (f p).name ≡ p.name)
    → ((p : PhaseStatus) → find_step k (f p).steps ≡ find_step k p.steps)
    → step_of n k (update_phase n f a) ≡ step_of n k a
step_of-update_phase n k f a keeps same = elim (Option-cases (find_phase n a.phases)) [
  | inl e ↦ rw (e, find-modify_phase-none f keeps n a.phases e)
  | inr (p, e) ↦ rw (e, find-modify_phase_self f keeps n a.phases p e) (same p)
]

-- A write to the step.
pub step_of-set_step :
    (ph : Phase) (st : Step) (f : StepStatus → StepStatus) (a : PlanStatus) (s : StepStatus)
    → ((s : StepStatus) → (f s).name ≡ s.name)
    → step_of ph.name st.name a ≡ some s
    → step_of ph.name st.name (set_step ph st f a) ≡ some (f s)
step_of-set_step ph st f a s keeps h = elim (Option-cases (find_phase ph.name a.phases)) [
  | inl e ↦ cc (rw e at h)
  | inr (p, e) ↦
      rw (find-modify_phase_self (update_step st.name f) (λ q. refl) ph.name a.phases p e)
        (find-modify_step_self f keeps st.name p.steps s (rw e at h))
]

step_of-set_step_other :
    (ph : Phase) (st : Step) (f : StepStatus → StepStatus) (a : PlanStatus)
    → ((s : StepStatus) → (f s).name ≡ s.name)
    → SameSteps ph.name st.name a (set_step ph st f a)
step_of-set_step_other ph st f a keeps k h =
    step_of-update_phase ph.name k (update_step st.name f) a (λ p. refl)
      (λ p. find-modify_step_other f keeps st.name k p.steps h)

step_of-set :
    (now : ℕ) (s : ExecutionStatus) (n k : String) (a : PlanStatus)
    → step_of n k (PlanStatus.set now s a) ≡ step_of n k a
step_of-set now s n k a = rw (set-phases now s a)

step_of-fail_step :
    (now : ℕ) (ph : Phase) (st : Step) (text : String) (a : PlanStatus)
    → SameSteps ph.name st.name a (fail_step now ph st text a)
unfolding fail_step
step_of-fail_step now ph st text a k h =
    step_of-set now fatal_error ph.name k _
    ∙ step_of-update_phase ph.name k _ a (λ p. refl)
        (λ p.
          find-modify_step_other (StepStatus.set_with_message fatal_error text) (λ s. refl) st.name
            k p.steps h)

abbrev pub IsStepComplete : String → PlanStatus → String → Type 0
IsStepComplete n plan k =
    (s : StepStatus) × (step_of n k plan ≡ some s) × (is_finished s.status ≡ true)

module _ {Y W : Type 0} (cluster : Cluster Y W) (em : Metadata) (pl : ActivePlan Y) where
  run_task-SameSteps :
      (ph : Phase) (st : Step) (tn : String) (l : Loop (List String) W)
      → SameSteps ph.name st.name l.plan (flow_plan (run_task cluster em pl ph st tn l))
  run_task-SameSteps ph st tn l =
      run_task_cases cluster em pl (λ flow. SameSteps ph.name st.name l.plan (flow_plan flow)) ph st
        tn l (λ w text e h. step_of-fail_step (cluster.now w) ph st text l.plan)
        (λ w text.
          step_of-set_step_other ph st (StepStatus.set_with_message error_status text) l.plan
            (λ s. refl))
        (λ w done t tasker a b c k h. refl)

  run_tasks-SameSteps :
      (ph : Phase) (st : Step) (tasks : List String) (l : Loop (List String) W)
      → SameSteps ph.name st.name l.plan (outcome_plan (run_tasks cluster em pl ph st tasks l))
  unfolding run_tasks
  run_tasks-SameSteps ph st [] l k h = refl
  run_tasks-SameSteps ph st (tn ∷ rest) l k h =
      let step = run_task-SameSteps ph st tn l k h in
      continue_cases (λ o. step_of ph.name k (outcome_plan o) ≡ step_of ph.name k l.plan)
        (run_task cluster em pl ph st tn l) (run_tasks cluster em pl ph st rest)
        (λ l' e. run_tasks-SameSteps ph st rest l' k h ∙ (rw e at step)) (λ l' e. rw e at step)
        (λ plan w x e. rw e at step)

  finish_step-SameSteps :
      (ph : Phase) (st : Step) (left : List String) (a : PlanStatus) (o : Outcome (List String) W)
      → SameSteps ph.name st.name a (outcome_plan o)
      → SameSteps ph.name st.name a (flow_plan (finish_step cluster em pl ph st left o))
  unfolding finish_step
  finish_step-SameSteps ph st left a (aborted plan w e) h k n = h k n
  finish_step-SameSteps ph st left a (ended l) h k n = elim (Bool-cases (is_empty l.left)) [
    | inl e ↦
        rw e (step_of-set_step_other ph st (StepStatus.set complete) l.plan (λ s. refl) k n ∙ h k n)
    | inr e ↦ elim (Bool-cases (is_serial ph.strategy)) [
      | inl f ↦ rw (e, f) (h k n)
      | inr f ↦ rw (e, f) (h k n)
    ]
  ]

  enter_step-SameSteps :
      (ph : Phase) (st : Step) (s : StepStatus) (a : PlanStatus)
      → SameSteps ph.name st.name a (enter_step ph st s a)
  enter_step-SameSteps ph st s a k h = elim (Bool-cases (is_running s.status)) [
    | inl e ↦ rw e (step_of-set_step_other ph st (StepStatus.set in_progress) a (λ s. refl) k h)
    | inr e ↦ rw e
  ]

  -- A round of the loop over the steps leaves the other steps of the phase.
  run_step-SameSteps :
      (ph : Phase) (st : Step) (l : Loop (List String) W)
      → SameSteps ph.name st.name l.plan (flow_plan (run_step cluster em pl ph st l))
  run_step-SameSteps ph st l =
      run_step_cases cluster em pl (λ flow. SameSteps ph.name st.name l.plan (flow_plan flow)) ph st
        l
        (λ text e m f k h.
          step_of-set _ fatal_error ph.name k _
          ∙ step_of-update_phase ph.name k (PhaseStatus.set_with_message fatal_error text) l.plan
              (λ p. refl) (λ p. refl))
        (λ s e f k h. refl)
        (λ s e f. finish_step-SameSteps ph st l.left l.plan _ (λ k h.
          run_tasks-SameSteps ph st st.tasks (started_step cluster em pl ph st s l) k h
          ∙ enter_step-SameSteps ph st s l.plan k h))

  run_step-keeps_complete :
      (ph : Phase) (st : Step) (k : String) (s : StepStatus) (l : Loop (List String) W)
      → step_of ph.name k l.plan ≡ some s
      → is_finished s.status ≡ true
      → step_of ph.name k (flow_plan (run_step cluster em pl ph st l)) ≡ some s
  run_step-keeps_complete ph st k s l found done = elim (Bool-cases (st.name == k)) [
    | inl e ↦ same (rw (← (eq_iff st.name k).0 e) at found)
    | inr e ↦ run_step-SameSteps ph st l k e ∙ found
  ]
    where
      same :
          step_of ph.name st.name l.plan ≡ some s
          → step_of ph.name k (flow_plan (run_step cluster em pl ph st l)) ≡ some s
      same f =
          run_step_cases cluster em pl (λ flow. step_of ph.name k (flow_plan flow) ≡ some s) ph st l
            (λ text e m h. cc (f, m)) (λ q e h. found) (λ q e h. ground arith)

  pub run_steps-keeps_complete :
      (ph : Phase) (steps : List Step) (k : String) (s : StepStatus) (l : Loop (List String) W)
      → step_of ph.name k l.plan ≡ some s
      → is_finished s.status ≡ true
      → step_of ph.name k (outcome_plan (run_steps cluster em pl ph steps l)) ≡ some s
  unfolding run_steps
  run_steps-keeps_complete ph [] k s l found done = found
  run_steps-keeps_complete ph (st ∷ rest) k s l found done =
      let kept = run_step-keeps_complete ph st k s l found done in
      continue_cases (λ o. step_of ph.name k (outcome_plan o) ≡ some s)
        (run_step cluster em pl ph st l) (run_steps cluster em pl ph rest)
        (λ l' e. run_steps-keeps_complete ph rest k s l' (rw e at kept) done) (λ l' e. rw e at kept)
        (λ plan w x e. rw e at kept)
