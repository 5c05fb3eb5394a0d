-- ===== src/Workflow/Cases.antt =====
-- Case rules for the bodies of the loops of `Execute`: what is to be shown of a round is shown of
-- each way in which the round can end, with what is known there.
use kudo.Prelude.{
  ℕ, ◌-◌, ◌≡◌, refl, inl, inr, String, ap, Bool, true, false, List, none, some, Result, ok, err,
  if◌then◌else◌, Option-cases, Bool-cases,
}
use kudo.Api.ExecutionStatus.{error_status, fatal_error, is_finished}
use kudo.Api.StepStatus
use kudo.Api.StepStatus.{StepStatus}
use kudo.Api.PhaseStatus
use kudo.Api.PhaseStatus.{PhaseStatus, find_step}
use kudo.Api.PlanStatus
use kudo.Api.PlanStatus.{PlanStatus, find_phase, update_phase}
use kudo.Api.Operator.{Task, Step, Phase}
use kudo.Engine.{Error, Metadata, execution_error}
use kudo.Tasks.Tasker.{Tasker}
use kudo.Tasks.Build.{build}
use kudo.Tasks.Run.{RunResult, Cluster, run}
use kudo.Workflow.Loop.{
  ActivePlan, task_by_name, string_array_to_set, step_names_to_set, remove, Loop, Flow, next, stop,
  abort, Outcome, ended, aborted, continue,
}
use kudo.Workflow.Execute.{
  fail_step, set_step, enter_step, enter_phase, step_of, task_context, after_run, unknown_task,
  unbuilt_task, missing_step, missing_phase, after_build, run_task, run_tasks, finish_step,
  run_step, run_steps, finish_phase, run_phase,
}

abbrev pub flow_plan : {L W : Type 0} → Flow L W → PlanStatus
flow_plan (next l) = l.plan
flow_plan (stop l) = l.plan
flow_plan (abort plan w e) = plan

abbrev pub outcome_plan : {L W : Type 0} → Outcome L W → PlanStatus
outcome_plan (ended l) = l.plan
outcome_plan (aborted plan w e) = plan

pub continue_cases {ℓ} :
    {L W : Type 0} (P : Outcome L W → Type ℓ) (flow : Flow L W) (rest : Loop L W → Outcome L W)
    → ((l : Loop L W) → flow ≡ next l → P (rest l))
    → ((l : Loop L W) → flow ≡ stop l → P (ended l))
    → ((plan : PlanStatus) (w : W) (e : Error) → flow ≡ abort plan w e → P (aborted plan w e))
    → P (continue flow rest)
continue_cases P (next l) rest go halt fail = go l refl
continue_cases P (stop l) rest go halt fail = halt l refl
continue_cases P (abort plan w e) rest go halt fail = fail plan w e refl

module _ {Y W : Type 0} (cluster : Cluster Y W) (em : Metadata) (pl : ActivePlan Y) where
  open cluster use {now}

  after_run_cases {ℓ} :
      (P : Flow (List String) W → Type ℓ) (ph : Phase) (st : Step) (t : Task)
      (l : Loop (List String) W) (r : RunResult) (w : W)
      → ((text : String) (e : Error)
          → e.fatal ≡ true
          → P (abort (fail_step (now w) ph st text l.plan) w e))
      → ((text : String)
          → P (
              next (record {
                plan = set_step ph st (StepStatus.set_with_message error_status text) l.plan;
                left = l.left;
                world = w;
              })))
      → ((done : Bool)
          → r ≡ (done, none)
          → P (
              next (record {
                plan = l.plan;
                left = if done then remove t.name l.left else l.left;
                world = w;
              })))
      → P (after_run cluster em pl ph st t l r w)
  unfolding after_run
  after_run_cases P ph st t l (done, none) w failed retried ran = ran done refl
  after_run_cases P ph st t l (done, some e) w failed retried ran = elim (Bool-cases e.fatal) [
    | inl h ↦ simp h (failed e.text e h)
    | inr h ↦ simp h (retried _)
  ]

  -- A task aborts the plan with a fatal error, is tried again, or has run without an error.
  pub run_task_cases {ℓ} :
      (P : Flow (List String) W → Type ℓ) (ph : Phase) (st : Step) (tn : String)
      (l : Loop (List String) W)
      → ((w : W) (text : String) (e : Error)
          → e.fatal ≡ true
          → P (abort (fail_step (now w) ph st text l.plan) w e))
      → ((w : W) (text : String)
          → P (
              next (record {
                plan = set_step ph st (StepStatus.set_with_message error_status text) l.plan;
                left = l.left;
                world = w;
              })))
      → ((w : W) (done : Bool) (t : Task) (tasker : Tasker)
          → task_by_name pl tn ≡ some t
          → build t ≡ ok tasker
          → run cluster tasker (task_context cluster em pl ph st tn l.plan) l.world
            ≡ ((done, none), w)
          → P (
              next (record {
                plan = l.plan;
                left = if done then remove t.name l.left else l.left;
                world = w;
              })))
      → P (run_task cluster em pl ph st tn l)
  unfolding run_task after_build execution_error
  run_task_cases P ph st tn l failed retried ran = elim (Option-cases (task_by_name pl tn)) [
    | inl e ↦
        rw (e, run_task)
          (failed l.world _
            (execution_error (unknown_task cluster em pl ph st tn) "UnknownTaskName") refl)
    | inr (t, e) ↦ rw (e, run_task) (built t e (build t) refl)
  ]
    where
      built :
          (t : Task)
          → task_by_name pl tn ≡ some t
          → (b : Result String Tasker) → build t ≡ b
          → P (after_build cluster em pl ph st tn t l b)
      built t e (err cause) h =
          failed l.world _
            (execution_error (unbuilt_task cluster em pl ph st tn cause) "TaskBuildError") refl
      built t e (ok tasker) h =
          let (result, w) =
            run cluster tasker (task_context cluster em pl ph st tn l.plan) l.world in
          after_run_cases P ph st t l result w (failed w) (retried w)
            (λ done r. ran w done t tasker e h (ap (λ (x : RunResult). (x, w)) r))

  abbrev pub started_step : Phase → Step → StepStatus → Loop (List String) W → Loop (List String) W
  started_step ph st s l = record {
    plan = enter_step ph st s l.plan;
    left = string_array_to_set st.tasks;
    world = l.world;
  }

  -- The status of a step is missing, it is finished, or its tasks run.
  pub run_step_cases {ℓ} :
      (P : Flow (List String) W → Type ℓ) (ph : Phase) (st : Step) (l : Loop (List String) W)
      → ((text : String) (e : Error)
          → step_of ph.name st.name l.plan ≡ none
          → e.fatal ≡ true
          → P (
              abort
                (PlanStatus.set
                  (now l.world)
                  fatal_error
                  (update_phase ph.name (PhaseStatus.set_with_message fatal_error text) l.plan))
                l.world
                e))
      → ((s : StepStatus)
          → step_of ph.name st.name l.plan ≡ some s
          → is_finished s.status ≡ true
          → P (next (record l { left = remove s.name l.left })))
      → ((s : StepStatus)
          → step_of ph.name st.name l.plan ≡ some s
          → is_finished s.status ≡ false
          → P (
              finish_step cluster em pl ph st l.left
                (run_tasks cluster em pl ph st st.tasks (started_step ph st s l))))
      → P (run_step cluster em pl ph st l)
  unfolding run_step execution_error
  run_step_cases P ph st l failed skipped ran =
      elim (Option-cases (step_of ph.name st.name l.plan)) [
        | inl e ↦
            rw (e, run_step)
              (failed _ (execution_error (missing_step cluster em pl ph st) "MissingStepStatus") e
                refl)
        | inr (s, e) ↦ elim (Bool-cases (is_finished s.status)) [
          | inl h ↦ rw (e, run_step, h) (skipped s e h)
          | inr h ↦ rw (e, run_step, h) (ran s e h)
        ]
      ]

  abbrev pub started_phase : Phase → PhaseStatus → Loop ℕ W → Loop (List String) W
  started_phase ph p l = record {
    plan = enter_phase ph p l.plan;
    left = step_names_to_set ph.steps;
    world = l.world;
  }

  -- The status of a phase is missing, it is finished, or its steps run.
  pub run_phase_cases {ℓ} :
      (P : Flow ℕ W → Type ℓ) (ph : Phase) (l : Loop ℕ W)
      → ((text : String) (e : Error)
          → find_phase ph.name l.plan.phases ≡ none
          → e.fatal ≡ true
          → P (abort (PlanStatus.set_with_message (now l.world) fatal_error text l.plan) l.world e))
      → ((p : PhaseStatus)
          → find_phase ph.name l.plan.phases ≡ some p
          → is_finished p.status ≡ true
          → P (next (record l { left = l.left - 1 })))
      → ((p : PhaseStatus)
          → find_phase ph.name l.plan.phases ≡ some p
          → is_finished p.status ≡ false
          → P (
              finish_phase cluster em pl ph l.left
                (run_steps cluster em pl ph ph.steps (started_phase ph p l))))
      → P (run_phase cluster em pl ph l)
  unfolding run_phase execution_error
  run_phase_cases P ph l failed skipped ran =
      elim (Option-cases (find_phase ph.name l.plan.phases)) [
        | inl e ↦
            rw (e, run_phase)
              (failed _ (execution_error (missing_phase cluster em pl ph) "MissingPhaseStatus") e
                refl)
        | inr (p, e) ↦ elim (Bool-cases (is_finished p.status)) [
          | inl h ↦ rw (e, run_phase, h) (skipped p e h)
          | inr h ↦ rw (e, run_phase, h) (ran p e h)
        ]
      ]
