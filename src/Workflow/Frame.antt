-- ===== src/Workflow/Frame.antt =====
-- What an execution of a phase leaves alone: the other phases, every name, and the plan's UID.
use kudo.Prelude.{
  ℕ, ◌≡◌, refl, ◌∙◌, inl, inr, String, false, List, [], ◌∷◌, ◌==◌, ◌&&◌, is_empty, Bool-cases,
}
use kudo.Api.ExecutionStatus.{
  ExecutionStatus, in_progress, fatal_error, complete, error_status, status_eq, is_running,
}
use kudo.Api.StepStatus
use kudo.Api.StepStatus.{StepStatus}
use kudo.Api.PhaseStatus
use kudo.Api.PhaseStatus.{PhaseStatus, modify_step, update_step}
use kudo.Api.PhaseStatus.Find.{step_names, step_names-modify}
use kudo.Api.PlanStatus
use kudo.Api.PlanStatus.{PlanStatus, find_phase, modify_phase, update_phase}
use kudo.Api.PlanStatus.Find.{phase_names, find-modify_phase_other, phase_names-modify}
use kudo.Api.Operator.{Step, Phase}
use kudo.Engine.{Metadata}
use kudo.Tasks.Run.{Cluster}
use kudo.Workflow.Loop.{ActivePlan, Loop, Outcome, ended, aborted}
use kudo.Workflow.Execute.{
  is_serial, fail_step, set_step, enter_step, enter_phase, run_task, run_tasks, finish_step,
  run_step, run_steps, finish_phase, run_phase,
}
use kudo.Workflow.Cases.{
  flow_plan, outcome_plan, continue_cases, run_task_cases, run_step_cases, run_phase_cases,
  started_step, started_phase,
}

-- From `a` to `b` only the phase `n` and the plan's status, message and timestamp may change.
pub record Frame (n : String) (a b : PlanStatus) : Type 0 where
  pub others : (m : String) → (n == m) ≡ false → find_phase m b.phases ≡ find_phase m a.phases
  pub names : phase_names b.phases ≡ phase_names a.phases
  pub uid : b.uid ≡ a.uid
  pub name : b.name ≡ a.name

pub Frame-refl : (n : String) (a : PlanStatus) → Frame n a a
Frame-refl n a = record { others = λ m h. refl; names = refl; uid = refl; name = refl }

pub Frame-trans : (n : String) (a b c : PlanStatus) → Frame n a b → Frame n b c → Frame n a c
Frame-trans n a b c f g = record {
  others = λ m h. g.others m h ∙ f.others m h;
  names = g.names ∙ f.names;
  uid = g.uid ∙ f.uid;
  name = g.name ∙ f.name;
}

pub Frame-update_phase :
    (n : String) (f : PhaseStatus → PhaseStatus) (a : PlanStatus)
    → ((p : PhaseStatus) → (f p).name ≡ p.name)
    → ((p : PhaseStatus) → step_names (f p).steps ≡ step_names p.steps)
    → Frame n a (update_phase n f a)
Frame-update_phase n f a keeps steps = record {
  others = λ m h. find-modify_phase_other f keeps n m a.phases h;
  names = phase_names-modify f keeps n a.phases steps;
  uid = refl;
  name = refl;
}

pub Frame-set :
    (n : String) (now : ℕ) (s : ExecutionStatus) (a : PlanStatus)
    → Frame n a (PlanStatus.set now s a)
unfolding PlanStatus.set
Frame-set n now s a = elim (Bool-cases (status_eq a.status s)) [
  | inl e ↦ rw e (Frame-refl n a)
  | inr e ↦ rw e (record { others = λ m h. refl; names = refl; uid = refl; name = refl })
]

pub Frame-set_with_message :
    (n : String) (now : ℕ) (s : ExecutionStatus) (text : String) (a : PlanStatus)
    → Frame n a (PlanStatus.set_with_message now s text a)
unfolding PlanStatus.set_with_message
Frame-set_with_message n now s text a =
    elim (Bool-cases (status_eq a.status s && a.message == text)) [
      | inl e ↦ simp e (Frame-refl n a)
      | inr e ↦ simp e (record { others = λ m h. refl; names = refl; uid = refl; name = refl })
    ]

pub Frame-set_step :
    (ph : Phase) (st : Step) (f : StepStatus → StepStatus) (a : PlanStatus)
    → ((s : StepStatus) → (f s).name ≡ s.name)
    → Frame ph.name a (set_step ph st f a)
Frame-set_step ph st f a keeps =
    Frame-update_phase ph.name (update_step st.name f) a (λ p. refl)
      (λ p. step_names-modify f keeps st.name p.steps)

pub Frame-fail_step :
    (now : ℕ) (ph : Phase) (st : Step) (text : String) (a : PlanStatus)
    → Frame ph.name a (fail_step now ph st text a)
unfolding fail_step
Frame-fail_step now ph st text a =
    Frame-trans ph.name _ _ _
      (Frame-update_phase ph.name _ a (λ p. refl)
        (λ p.
          step_names-modify (StepStatus.set_with_message fatal_error text) (λ s. refl) st.name
            p.steps))
      (Frame-set ph.name now fatal_error _)

module _ {Y W : Type 0} (cluster : Cluster Y W) (em : Metadata) (pl : ActivePlan Y) where
  run_task-Frame :
      (ph : Phase) (st : Step) (tn : String) (l : Loop (List String) W)
      → Frame ph.name l.plan (flow_plan (run_task cluster em pl ph st tn l))
  run_task-Frame ph st tn l =
      run_task_cases cluster em pl (λ flow. Frame ph.name l.plan (flow_plan flow)) ph st tn l
        (λ w text e h. Frame-fail_step (cluster.now w) ph st text l.plan)
        (λ w text.
          Frame-set_step ph st (StepStatus.set_with_message error_status text) l.plan (λ s. refl))
        (λ w done t tasker a b c. Frame-refl ph.name l.plan)

  pub run_tasks-Frame :
      (ph : Phase) (st : Step) (tasks : List String) (l : Loop (List String) W)
      → Frame ph.name l.plan (outcome_plan (run_tasks cluster em pl ph st tasks l))
  unfolding run_tasks
  run_tasks-Frame ph st [] l = Frame-refl ph.name l.plan
  run_tasks-Frame ph st (tn ∷ rest) l =
      continue_cases (λ o. Frame ph.name l.plan (outcome_plan o))
        (run_task cluster em pl ph st tn l) (run_tasks cluster em pl ph st rest)
        (λ l' e.
          Frame-trans ph.name _ _ _ (rw e at (run_task-Frame ph st tn l))
            (run_tasks-Frame ph st rest l'))
        (λ l' e. rw e at (run_task-Frame ph st tn l))
        (λ plan w x e. rw e at (run_task-Frame ph st tn l))

  finish_step-Frame :
      (ph : Phase) (st : Step) (left : List String) (a : PlanStatus) (o : Outcome (List String) W)
      → Frame ph.name a (outcome_plan o)
      → Frame ph.name a (flow_plan (finish_step cluster em pl ph st left o))
  unfolding finish_step
  finish_step-Frame ph st left a (aborted plan w e) h = h
  finish_step-Frame ph st left a (ended l) h = elim (Bool-cases (is_empty l.left)) [
    | inl e ↦ rw e (
        Frame-trans ph.name a l.plan _ h
          (Frame-set_step ph st (StepStatus.set complete) l.plan (λ s. refl)))
    | inr e ↦ elim (Bool-cases (is_serial ph.strategy)) [
      | inl f ↦ rw (e, f) h
      | inr f ↦ rw (e, f) h
    ]
  ]

  pub enter_step-Frame :
      (ph : Phase) (st : Step) (s : StepStatus) (a : PlanStatus)
      → Frame ph.name a (enter_step ph st s a)
  enter_step-Frame ph st s a = elim (Bool-cases (is_running s.status)) [
    | inl e ↦ rw e (Frame-set_step ph st (StepStatus.set in_progress) a (λ s. refl))
    | inr e ↦ rw e (Frame-refl ph.name a)
  ]

  run_step-Frame :
      (ph : Phase) (st : Step) (l : Loop (List String) W)
      → Frame ph.name l.plan (flow_plan (run_step cluster em pl ph st l))
  run_step-Frame ph st l =
      run_step_cases cluster em pl (λ flow. Frame ph.name l.plan (flow_plan flow)) ph st l
        (λ text e m h.
          Frame-trans ph.name _ _ _
            (Frame-update_phase ph.name (PhaseStatus.set_with_message fatal_error text) l.plan
              (λ p. refl) (λ p. refl))
            (Frame-set ph.name _ fatal_error _))
        (λ s e h. Frame-refl ph.name l.plan)
        (λ s e h. finish_step-Frame ph st l.left l.plan _ (
          Frame-trans ph.name _ _ _ (enter_step-Frame ph st s l.plan)
            (run_tasks-Frame ph st st.tasks (started_step cluster em pl ph st s l))))

  pub run_steps-Frame :
      (ph : Phase) (steps : List Step) (l : Loop (List String) W)
      → Frame ph.name l.plan (outcome_plan (run_steps cluster em pl ph steps l))
  unfolding run_steps
  run_steps-Frame ph [] l = Frame-refl ph.name l.plan
  run_steps-Frame ph (st ∷ rest) l =
      continue_cases (λ o. Frame ph.name l.plan (outcome_plan o)) (run_step cluster em pl ph st l)
        (run_steps cluster em pl ph rest)
        (λ l' e.
          Frame-trans ph.name _ _ _ (rw e at (run_step-Frame ph st l)) (run_steps-Frame ph rest l'))
        (λ l' e. rw e at (run_step-Frame ph st l)) (λ plan w x e. rw e at (run_step-Frame ph st l))

  finish_phase-Frame :
      (ph : Phase) (left : ℕ) (a : PlanStatus) (o : Outcome (List String) W)
      → Frame ph.name a (outcome_plan o)
      → Frame ph.name a (flow_plan (finish_phase cluster em pl ph left o))
  unfolding finish_phase
  finish_phase-Frame ph left a (aborted plan w e) h = h
  finish_phase-Frame ph left a (ended l) h = elim (Bool-cases (is_empty l.left)) [
    | inl e ↦ rw e (
        Frame-trans ph.name a l.plan _ h
          (Frame-update_phase ph.name (PhaseStatus.set complete) l.plan (λ p. refl) (λ p. refl)))
    | inr e ↦ elim (Bool-cases (is_serial pl.spec.strategy)) [
      | inl f ↦ rw (e, f) h
      | inr f ↦ rw (e, f) h
    ]
  ]

  pub enter_phase-Frame :
      (ph : Phase) (p : PhaseStatus) (a : PlanStatus) → Frame ph.name a (enter_phase ph p a)
  enter_phase-Frame ph p a = elim (Bool-cases (is_running p.status)) [
    | inl e ↦
        rw e (Frame-update_phase ph.name (PhaseStatus.set in_progress) a (λ p. refl) (λ p. refl))
    | inr e ↦ rw e (Frame-refl ph.name a)
  ]

  -- A round of the loop over the phases leaves the other phases and all names.
  pub run_phase-Frame :
      (ph : Phase) (l : Loop ℕ W) → Frame ph.name l.plan (flow_plan (run_phase cluster em pl ph l))
  run_phase-Frame ph l =
      run_phase_cases cluster em pl (λ flow. Frame ph.name l.plan (flow_plan flow)) ph l
        (λ text e m h. Frame-set_with_message ph.name _ fatal_error text l.plan)
        (λ p e h. Frame-refl ph.name l.plan)
        (λ p e h. finish_phase-Frame ph l.left l.plan _ (
          Frame-trans ph.name _ _ _ (enter_phase-Frame ph p l.plan)
            (run_steps-Frame ph ph.steps (started_phase cluster em pl ph p l))))
