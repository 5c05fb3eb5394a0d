-- ===== src/Workflow/Status.antt =====
-- The plan's own status through the loops: it changes only where `Execute` returns an error.
use kudo.Prelude.{
  ℕ, ◌≡◌, refl, ◌⊎◌, inl, inr, String, true, false, List, [], ◌∷◌, none, some, arith, Bool-cases,
  eqb,
}
use kudo.Api.ExecutionStatus.{ExecutionStatus, in_progress, fatal_error, complete, is_terminal}
use kudo.Api.StepStatus.{StepStatus}
use kudo.Api.PhaseStatus.{PhaseStatus}
use kudo.Api.PlanStatus.Find.{set-status, set_with_message-status}
use kudo.Api.Operator.{Step, Phase}
use kudo.Engine.{Error, Metadata}
use kudo.Tasks.Run.{Cluster}
use kudo.Workflow.Loop.{
  ActivePlan, Loop, Flow, next, stop, abort, Outcome, ended, aborted, Execution,
}
use kudo.Workflow.Execute.{
  fail_step, enter_step, enter_phase, run_task, run_tasks, finish_step, run_step, run_steps,
  finish_phase, run_phase, run_phases, finish_plan, start, execute,
}
use kudo.Workflow.Cases.{
  continue_cases, run_task_cases, run_step_cases, run_phase_cases, started_step, started_phase,
}

-- The plan's status is still `s`, or an error that is fatal has made it FATAL_ERROR.
abbrev pub FlowStatus : {L W : Type 0} → ExecutionStatus → Flow L W → Type 0
FlowStatus s (next l) = l.plan.status ≡ s
FlowStatus s (stop l) = l.plan.status ≡ s
FlowStatus s (abort plan w e) = (plan.status ≡ fatal_error) × (e.fatal ≡ true)

abbrev pub OutcomeStatus : {L W : Type 0} → ExecutionStatus → Outcome L W → Type 0
OutcomeStatus s (ended l) = l.plan.status ≡ s
OutcomeStatus s (aborted plan w e) = (plan.status ≡ fatal_error) × (e.fatal ≡ true)

module _ {Y W : Type 0} (cluster : Cluster Y W) (em : Metadata) (pl : ActivePlan Y) where
  run_task-FlowStatus :
      (ph : Phase) (st : Step) (tn : String) (s : ExecutionStatus) (l : Loop (List String) W)
      → l.plan.status ≡ s
      → FlowStatus s (run_task cluster em pl ph st tn l)
  unfolding fail_step
  run_task-FlowStatus ph st tn s l k =
      run_task_cases cluster em pl (FlowStatus s) ph st tn l
        (λ w text e h. (set-status _ fatal_error _, h)) (λ w text. k) (λ w done t tasker a b c. k)

  run_tasks-OutcomeStatus :
      (ph : Phase) (st : Step) (tasks : List String) (s : ExecutionStatus)
      (l : Loop (List String) W)
      → l.plan.status ≡ s
      → OutcomeStatus s (run_tasks cluster em pl ph st tasks l)
  unfolding run_tasks
  run_tasks-OutcomeStatus ph st [] s l h = h
  run_tasks-OutcomeStatus ph st (tn ∷ rest) s l h =
      let step = run_task-FlowStatus ph st tn s l h in
      continue_cases (OutcomeStatus s) (run_task cluster em pl ph st tn l)
        (run_tasks cluster em pl ph st rest)
        (λ l' e. run_tasks-OutcomeStatus ph st rest s l' (rw e at step)) (λ l' e. rw e at step)
        (λ plan w x e. rw e at step)

  finish_step-FlowStatus :
      (ph : Phase) (st : Step) (left : List String) (s : ExecutionStatus)
      (o : Outcome (List String) W)
      → OutcomeStatus s o
      → FlowStatus s (finish_step cluster em pl ph st left o)
  unfolding finish_step
  finish_step-FlowStatus ph st left s (aborted plan w e) h = h
  finish_step-FlowStatus ph st left s (ended l) h = ground arith

  run_step-FlowStatus :
      (ph : Phase) (st : Step) (s : ExecutionStatus) (l : Loop (List String) W)
      → l.plan.status ≡ s
      → FlowStatus s (run_step cluster em pl ph st l)
  run_step-FlowStatus ph st s l h =
      run_step_cases cluster em pl (FlowStatus s) ph st l
        (λ text e m f. (set-status _ fatal_error _, f)) (λ p e f. h)
        (λ p e f. finish_step-FlowStatus ph st l.left s _ (
          run_tasks-OutcomeStatus ph st st.tasks s (started_step cluster em pl ph st p l)
            (entered p)))
    where
      entered : (p : StepStatus) → (enter_step ph st p l.plan).status ≡ s
      entered p = ground arith

  run_steps-OutcomeStatus :
      (ph : Phase) (steps : List Step) (s : ExecutionStatus) (l : Loop (List String) W)
      → l.plan.status ≡ s
      → OutcomeStatus s (run_steps cluster em pl ph steps l)
  unfolding run_steps
  run_steps-OutcomeStatus ph [] s l h = h
  run_steps-OutcomeStatus ph (st ∷ rest) s l h =
      let step = run_step-FlowStatus ph st s l h in
      continue_cases (OutcomeStatus s) (run_step cluster em pl ph st l)
        (run_steps cluster em pl ph rest)
        (λ l' e. run_steps-OutcomeStatus ph rest s l' (rw e at step)) (λ l' e. rw e at step)
        (λ plan w x e. rw e at step)

  finish_phase-FlowStatus :
      (ph : Phase) (left : ℕ) (s : ExecutionStatus) (o : Outcome (List String) W)
      → OutcomeStatus s o
      → FlowStatus s (finish_phase cluster em pl ph left o)
  unfolding finish_phase
  finish_phase-FlowStatus ph left s (aborted plan w e) h = h
  finish_phase-FlowStatus ph left s (ended l) h = ground arith

  run_phase-FlowStatus :
      (ph : Phase) (s : ExecutionStatus) (l : Loop ℕ W)
      → l.plan.status ≡ s
      → FlowStatus s (run_phase cluster em pl ph l)
  run_phase-FlowStatus ph s l h =
      run_phase_cases cluster em pl (FlowStatus s) ph l
        (λ text e m f. (set_with_message-status _ fatal_error text _, f)) (λ p e f. h)
        (λ p e f.
          finish_phase-FlowStatus ph l.left s _ (
            run_steps-OutcomeStatus ph ph.steps s (started_phase cluster em pl ph p l) (entered p)))
    where
      entered : (p : PhaseStatus) → (enter_phase ph p l.plan).status ≡ s
      entered p = ground arith

  pub run_phases-OutcomeStatus :
      (phases : List Phase) (s : ExecutionStatus) (l : Loop ℕ W)
      → l.plan.status ≡ s
      → OutcomeStatus s (run_phases cluster em pl phases l)
  unfolding run_phases
  run_phases-OutcomeStatus [] s l h = h
  run_phases-OutcomeStatus (ph ∷ rest) s l h =
      let step = run_phase-FlowStatus ph s l h in
      continue_cases (OutcomeStatus s) (run_phase cluster em pl ph l)
        (run_phases cluster em pl rest) (λ l' e. run_phases-OutcomeStatus rest s l' (rw e at step))
        (λ l' e. rw e at step) (λ plan w x e. rw e at step)

  -- What `Execute` says of a plan by its status and by its error, together.
  abbrev pub Verdict : Execution W → Type 0
  Verdict x =
      ((x.error ≡ none) × ((x.status.status ≡ in_progress) ⊎ (x.status.status ≡ complete)))
      ⊎ ((e : Error) × (x.error ≡ some e) × (e.fatal ≡ true) × (x.status.status ≡ fatal_error))

  finish_plan-Verdict :
      (o : Outcome ℕ W) → OutcomeStatus in_progress o → Verdict (finish_plan cluster em pl o)
  unfolding finish_plan
  finish_plan-Verdict (aborted plan w e) h = inr (e, refl, h.1, h.0)
  finish_plan-Verdict (ended l) h = elim (Bool-cases (eqb l.left 0)) [
    | inl e ↦ inl (refl, inr (rw e (set-status _ complete _)))
    | inr e ↦ inl (refl, inl (rw e h))
  ]

  -- An execution of a plan that is not terminal returns no error, and then the plan is IN_PROGRESS
  -- or COMPLETE; or it returns an error that is fatal, and then the plan is FATAL_ERROR.
  pub execute-Verdict :
      (w : W) → is_terminal pl.plan_status.status ≡ false → Verdict (execute cluster em pl w)
  unfolding execute start
  execute-Verdict w h = rw h (
      finish_plan-Verdict (run_phases cluster em pl pl.spec.phases (start cluster em pl w)) (
        run_phases-OutcomeStatus pl.spec.phases in_progress (start cluster em pl w)
          (set-status _ in_progress _)))
