-- ===== src/Workflow/Execute.antt =====
-- pkg/engine/workflow/engine.go: `Execute`. Each loop is a function over the list that it goes
-- through, and the body of each loop is a function of its own. `time.Now()` is the cluster's clock.
use kudo.Prelude.{
  ℕ, ◌-◌, String, Bool, true, false, List, [], ◌∷◌, Option, none, some, Result, ok, err, eqb,
  if◌then◌else◌, length, is_empty, concat,
}
use kudo.Api.ExecutionStatus.{
  in_progress, complete, error_status, fatal_error, is_terminal, is_finished, is_running,
}
use kudo.Api.StepStatus
use kudo.Api.StepStatus.{StepStatus}
use kudo.Api.PhaseStatus
use kudo.Api.PhaseStatus.{PhaseStatus, get_step_status, update_step}
use kudo.Api.PlanStatus
use kudo.Api.PlanStatus.{PlanStatus, get_phase_status, update_phase}
use kudo.Api.Operator.{Task, Step, Phase, Ordering, serial, parallel, other}
use kudo.Engine.{Error, Metadata, fatal_error_with, execution_error}
use kudo.Tasks.Tasker.{Tasker}
use kudo.Tasks.Build.{build}
use kudo.Tasks.Run.{Context, RunResult, Cluster, run}
use kudo.Workflow.Loop.{
  ActivePlan, task_by_name, string_array_to_set, step_names_to_set, remove, Loop, Flow, next, stop,
  abort, Outcome, ended, aborted, continue, Execution,
}

abbrev pub is_serial : Ordering → Bool
is_serial serial = true
is_serial parallel = false
is_serial other = false

-- The step, its phase and the plan become FATAL_ERROR; the message goes to the step.
unfoldable pub fail_step : ℕ → Phase → Step → String → PlanStatus → PlanStatus
fail_step now ph st text plan = PlanStatus.set now fatal_error (
    update_phase ph.name
      (λ p.
        PhaseStatus.set fatal_error
          (update_step st.name (StepStatus.set_with_message fatal_error text) p))
      plan)

abbrev pub set_step : Phase → Step → (StepStatus → StepStatus) → PlanStatus → PlanStatus
set_step ph st f = update_phase ph.name (update_step st.name f)

abbrev pub enter_step : Phase → Step → StepStatus → PlanStatus → PlanStatus
enter_step ph st s plan =
    if is_running s.status then set_step ph st (StepStatus.set in_progress) plan else plan

abbrev pub enter_phase : Phase → PhaseStatus → PlanStatus → PlanStatus
enter_phase ph p plan =
    if is_running p.status then update_phase ph.name (PhaseStatus.set in_progress) plan else plan

abbrev pub step_in : String → Option PhaseStatus → Option StepStatus
step_in n none = none
step_in n (some p) = get_step_status n p

-- The status of a step of a phase, both by name.
abbrev pub step_of : String → String → PlanStatus → Option StepStatus
step_of phase step plan = step_in step (get_phase_status phase plan)

module _ {Y W : Type 0} (cluster : Cluster Y W) (em : Metadata) (pl : ActivePlan Y) where
  open cluster use {now}

  -- The errors that `Execute` makes itself, all of them fatal: `what` and a place in the plan.
  abbrev missing : String → List String → Error
  missing what place = fatal_error_with (
      concat (
        em.instance_namespace
        ∷ "/"
        ∷ em.instance_name
        ∷ " fatal error:  "
        ∷ what
        ∷ " "
        ∷ concat place
        ∷ []))

  abbrev pub unknown_task : Phase → Step → String → Error
  unknown_task ph st tn =
      missing "missing task" (pl.name ∷ "." ∷ ph.name ∷ "." ∷ st.name ∷ "." ∷ tn ∷ [])

  abbrev pub unbuilt_task : Phase → Step → String → String → Error
  unbuilt_task ph st tn cause =
      missing "failed to build task"
        (pl.name ∷ "." ∷ ph.name ∷ "." ∷ st.name ∷ "." ∷ tn ∷ ": " ∷ cause ∷ [])

  abbrev pub missing_step : Phase → Step → Error
  missing_step ph st = missing "missing step status" (pl.name ∷ "." ∷ ph.name ∷ "." ∷ st.name ∷ [])

  abbrev pub missing_phase : Phase → Error
  missing_phase ph = missing "missing phase status" (pl.name ∷ "." ∷ ph.name ∷ [])

  pub transient_message : Phase → Step → String → Error → String
  transient_message ph st tn e = concat (
      "A transient error when executing task " ∷ pl.name ∷ "." ∷ ph.name ∷ "." ∷ st.name ∷ "." ∷ tn
      ∷ ". Will retry. " ∷ e.text ∷ [])

  abbrev pub task_context : Phase → Step → String → PlanStatus → Context Y
  task_context ph st tn plan = record {
    meta = record {
      engine = em;
      plan_name = pl.name;
      plan_uid = plan.uid;
      phase_name = ph.name;
      step_name = st.name;
      task_name = tn;
    };
    templates = pl.templates;
    parameters = pl.params;
    pipes = pl.pipes;
  }

  -- 4. What a task's result does to the loop.
  unfoldable pub after_run :
      Phase → Step → Task → Loop (List String) W → RunResult → W → Flow (List String) W
  unfolding fail_step
  after_run ph st t l (done, none) w =
      next
        (record { plan = l.plan; left = if done then remove t.name l.left else l.left; world = w })
  after_run ph st t l (done, some e) w =
      if e.fatal
      then abort (fail_step (now w) ph st e.text l.plan) w e
      else next (record {
        plan =
            set_step ph st
              (StepStatus.set_with_message error_status (transient_message ph st t.name e)) l.plan;
        left = l.left;
        world = w;
      })

  unfoldable pub after_build :
      Phase
      → Step
      → String
      → Task
      → Loop (List String) W
      → Result String Tasker
      → Flow (List String) W
  unfolding after_run fail_step execution_error
  after_build ph st tn t l (err cause) =
      let e = unbuilt_task ph st tn cause in
      abort (fail_step (now l.world) ph st e.text l.plan) l.world
        (execution_error e "TaskBuildError")
  after_build ph st tn t l (ok tasker) =
      let (result, w) = run cluster tasker (task_context ph st tn l.plan) l.world in
      after_run ph st t l result w

  -- 3. The body of the loop over the tasks of a step.
  unfoldable pub run_task : Phase → Step → String → Loop (List String) W → Flow (List String) W
  unfolding after_build fail_step execution_error
  run_task ph st tn l = elim (task_by_name pl tn) [
    | none ↦
        let e = unknown_task ph st tn in
        abort (fail_step (now l.world) ph st e.text l.plan) l.world
          (execution_error e "UnknownTaskName")
    | some t ↦ after_build ph st tn t l (build t)
  ]

  unfoldable pub run_tasks :
      Phase → Step → List String → Loop (List String) W → Outcome (List String) W
  run_tasks ph st [] l = ended l
  run_tasks ph st (tn ∷ rest) l = continue (run_task ph st tn l) (run_tasks ph st rest)

  -- 5. After the tasks of a step.
  unfoldable pub finish_step :
      Phase → Step → List String → Outcome (List String) W → Flow (List String) W
  finish_step ph st steps_left (aborted plan w e) = abort plan w e
  finish_step ph st steps_left (ended l) =
      if is_empty l.left
      then next (record {
        plan = set_step ph st (StepStatus.set complete) l.plan;
        left = remove st.name steps_left;
        world = l.world;
      })
      else if is_serial ph.strategy
      then stop (record l { left = steps_left })
      else next (record l { left = steps_left })

  -- 2. The body of the loop over the steps of a phase.
  unfoldable pub run_step : Phase → Step → Loop (List String) W → Flow (List String) W
  unfolding run_tasks finish_step execution_error
  run_step ph st l = elim (step_of ph.name st.name l.plan) [
    | none ↦
        let e = missing_step ph st in
        abort
          (PlanStatus.set (now l.world) fatal_error
            (update_phase ph.name (PhaseStatus.set_with_message fatal_error e.text) l.plan))
          l.world (execution_error e "MissingStepStatus")
    | some s ↦
        if is_finished s.status
        then next (record l { left = remove s.name l.left })
        else finish_step ph st l.left (
            run_tasks ph st st.tasks (record {
              plan = enter_step ph st s l.plan;
              left = string_array_to_set st.tasks;
              world = l.world;
            }))
  ]

  unfoldable pub run_steps : Phase → List Step → Loop (List String) W → Outcome (List String) W
  run_steps ph [] l = ended l
  run_steps ph (st ∷ rest) l = continue (run_step ph st l) (run_steps ph rest)

  -- 6. After the steps of a phase.
  unfoldable pub finish_phase : Phase → ℕ → Outcome (List String) W → Flow ℕ W
  finish_phase ph phases_left (aborted plan w e) = abort plan w e
  finish_phase ph phases_left (ended l) =
      if is_empty l.left
      then next (record {
        plan = update_phase ph.name (PhaseStatus.set complete) l.plan;
        left = phases_left - 1;
        world = l.world;
      })
      else if is_serial pl.spec.strategy
      then stop (record { plan = l.plan; left = phases_left; world = l.world })
      else next (record { plan = l.plan; left = phases_left; world = l.world })

  -- 1. The body of the loop over the phases of the plan.
  unfoldable pub run_phase : Phase → Loop ℕ W → Flow ℕ W
  unfolding run_steps finish_phase execution_error
  run_phase ph l = elim (get_phase_status ph.name l.plan) [
    | none ↦
        let e = missing_phase ph in
        abort (PlanStatus.set_with_message (now l.world) fatal_error e.text l.plan) l.world
          (execution_error e "MissingPhaseStatus")
    | some p ↦
        if is_finished p.status
        then next (record l { left = l.left - 1 })
        else finish_phase ph l.left (
            run_steps ph ph.steps (record {
              plan = enter_phase ph p l.plan;
              left = step_names_to_set ph.steps;
              world = l.world;
            }))
  ]

  unfoldable pub run_phases : List Phase → Loop ℕ W → Outcome ℕ W
  run_phases [] l = ended l
  run_phases (ph ∷ rest) l = continue (run_phase ph l) (run_phases rest)

  -- 7. After the phases.
  unfoldable pub finish_plan : Outcome ℕ W → Execution W
  finish_plan (aborted plan w e) = record { status = plan; error = some e; world = w }
  finish_plan (ended l) = record {
    status = if eqb l.left 0 then PlanStatus.set (now l.world) complete l.plan else l.plan;
    error = none;
    world = l.world;
  }

  -- The start of the loop over the phases.
  unfoldable pub start : W → Loop ℕ W
  start w = record {
    plan = PlanStatus.set (now w) in_progress pl.plan_status;
    left = length pl.spec.phases;
    world = w;
  }

  unfoldable pub execute : W → Execution W
  unfolding finish_plan run_phases start
  execute w =
      if is_terminal pl.plan_status.status
      then record { status = pl.plan_status; error = none; world = w }
      else finish_plan (run_phases pl.spec.phases (start w))
