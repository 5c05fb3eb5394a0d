-- ===== src/Workflow/PhaseKeeps.antt =====
-- The steps of a phase leave its own status.
use kudo.Prelude.{
  ◌≡◌, refl, ◌∙◌, inl, inr, String, List, [], ◌∷◌, Option, none, some, is_empty, Bool-cases,
  Option-cases,
}
use kudo.Api.ExecutionStatus.{ExecutionStatus, in_progress, error_status, complete, is_running}
use kudo.Api.StepStatus
use kudo.Api.StepStatus.{StepStatus}
use kudo.Api.PhaseStatus.{PhaseStatus, update_step}
use kudo.Api.PlanStatus.{PlanStatus, find_phase}
use kudo.Api.PlanStatus.Find.{find-modify_phase_self, find-modify_phase-none}
use kudo.Api.Operator.{Step, Phase}
use kudo.Engine.{Metadata}
use kudo.Tasks.Run.{Cluster}
use kudo.Workflow.Loop.{ActivePlan, Loop, Flow, next, stop, abort, Outcome, ended, aborted}
use kudo.Workflow.Execute.{
  is_serial, set_step, enter_step, run_task, run_tasks, finish_step, run_step, run_steps,
}
use kudo.Workflow.Cases.{continue_cases, run_task_cases, run_step_cases, started_step}

-- The status of a phase.
abbrev pub status_in : Option PhaseStatus → Option ExecutionStatus
status_in none = none
status_in (some p) = some p.status

abbrev pub status_of : String → PlanStatus → Option ExecutionStatus
status_of n plan = status_in (find_phase n plan.phases)

pub status_of-set_step :
    (ph : Phase) (st : Step) (f : StepStatus → StepStatus) (a : PlanStatus)
    → status_of ph.name (set_step ph st f a) ≡ status_of ph.name a
status_of-set_step ph st f a = elim (Option-cases (find_phase ph.name a.phases)) [
  | inl e ↦ rw (e, find-modify_phase-none (update_step st.name f) (λ q. refl) ph.name a.phases e)
  | inr (p, e) ↦
      rw (e, find-modify_phase_self (update_step st.name f) (λ q. refl) ph.name a.phases p e)
]

-- Unless the execution aborts, the phase has the status `s` still.
abbrev pub FlowKeeps : {L W : Type 0} → String → Option ExecutionStatus → Flow L W → Type 0
FlowKeeps n s (next l) = status_of n l.plan ≡ s
FlowKeeps n s (stop l) = status_of n l.plan ≡ s
FlowKeeps n s (abort plan w e) = Unit

abbrev pub OutcomeKeeps : {L W : Type 0} → String → Option ExecutionStatus → Outcome L W → Type 0
OutcomeKeeps n s (ended l) = status_of n l.plan ≡ s
OutcomeKeeps n s (aborted plan w e) = Unit

module _ {Y W : Type 0} (cluster : Cluster Y W) (em : Metadata) (pl : ActivePlan Y) where
  pub run_tasks-OutcomeKeeps :
      (ph : Phase) (st : Step) (tasks : List String) (s : Option ExecutionStatus)
      (l : Loop (List String) W)
      → status_of ph.name l.plan ≡ s
      → OutcomeKeeps ph.name s (run_tasks cluster em pl ph st tasks l)
  unfolding run_tasks
  run_tasks-OutcomeKeeps ph st [] s l h = h
  run_tasks-OutcomeKeeps ph st (tn ∷ rest) s l h =
      continue_cases (OutcomeKeeps ph.name s) (run_task cluster em pl ph st tn l)
        (run_tasks cluster em pl ph st rest)
        (λ l' e. run_tasks-OutcomeKeeps ph st rest s l' (rw e at step)) (λ l' e. rw e at step)
        (λ plan w x e. tt)
    where
      step : FlowKeeps ph.name s (run_task cluster em pl ph st tn l)
      step =
          run_task_cases cluster em pl (FlowKeeps ph.name s) ph st tn l (λ w text e g. tt)
            (λ w text.
              status_of-set_step ph st (StepStatus.set_with_message error_status text) l.plan ∙ h)
            (λ w done t tasker a b c. h)

  pub finish_step-FlowKeeps :
      (ph : Phase) (st : Step) (left : List String) (s : Option ExecutionStatus)
      (o : Outcome (List String) W)
      → OutcomeKeeps ph.name s o
      → FlowKeeps ph.name s (finish_step cluster em pl ph st left o)
  unfolding finish_step
  finish_step-FlowKeeps ph st left s (aborted plan w e) h = h
  finish_step-FlowKeeps ph st left s (ended l) h = elim (Bool-cases (is_empty l.left)) [
    | inl e ↦ rw e (status_of-set_step ph st (StepStatus.set complete) l.plan ∙ h)
    | inr e ↦ elim (Bool-cases (is_serial ph.strategy)) [
      | inl f ↦ rw (e, f) h
      | inr f ↦ rw (e, f) h
    ]
  ]

  pub run_steps-OutcomeKeeps :
      (ph : Phase) (steps : List Step) (s : Option ExecutionStatus) (l : Loop (List String) W)
      → status_of ph.name l.plan ≡ s
      → OutcomeKeeps ph.name s (run_steps cluster em pl ph steps l)
  unfolding run_steps
  run_steps-OutcomeKeeps ph [] s l h = h
  run_steps-OutcomeKeeps ph (st ∷ rest) s l h =
      continue_cases (OutcomeKeeps ph.name s) (run_step cluster em pl ph st l)
        (run_steps cluster em pl ph rest)
        (λ l' e. run_steps-OutcomeKeeps ph rest s l' (rw e at step)) (λ l' e. rw e at step)
        (λ plan w x e. tt)
    where
      entered : (p : StepStatus) → status_of ph.name (enter_step ph st p l.plan) ≡ s
      entered p = elim (Bool-cases (is_running p.status)) [
        | inl e ↦ rw e (status_of-set_step ph st (StepStatus.set in_progress) l.plan ∙ h)
        | inr e ↦ rw e h
      ]

      step : FlowKeeps ph.name s (run_step cluster em pl ph st l)
      step =
          run_step_cases cluster em pl (FlowKeeps ph.name s) ph st l (λ text e m g. tt) (λ p e g. h)
            (λ p e g. finish_step-FlowKeeps ph st l.left s _ (
              run_tasks-OutcomeKeeps ph st st.tasks s (started_step cluster em pl ph st p l)
                (entered p)))
