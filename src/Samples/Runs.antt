-- ===== src/Samples/Runs.antt =====
-- Executions of a plan whose phases are completed, and of one whose first phase waits.
use kudo.Prelude.{ℕ, ◌≡◌, refl, [], ◌∷◌, All, contains}
use kudo.Api.ExecutionStatus.{complete}
use kudo.Api.PlanStatus.{set, find_phase, modify_phase}
use kudo.Api.PhaseStatus.{PhaseStatus, find_step, modify_step}
use kudo.Tasks.Tasker.{PipeTask, ToggleTask}
use kudo.Tasks.Build.{build, to_pipe_file}
use kudo.Tasks.Run.{text, Context, run}
use kudo.Workflow.Loop.{Loop, string_array_to_set, step_names_to_set, remove, find_task}
use kudo.Workflow.Execute.{execute, run_phases, run_phase, run_step, run_task}
use kudo.Workflow.Complete.{IsComplete, execute-complete_phases}
use kudo.Workflow.PhaseSteps.{HasCompleteSteps, execute-complete_steps}
use kudo.Workflow.TasksDone.{run_step-IsDone}
use kudo.Workflow.Tasks.{IsDone}
use kudo.Workflow.Chain.{Chain, flow_world, run_step-Chain}
use kudo.Workflow.Status.{Verdict, execute-Verdict}
use kudo.Workflow.Serial.{run_phases_serial}
use kudo.Samples.Data.{
  cluster, metadata, active, deploy, blocked, begin_steps, begin_phases, plan_status, pipe_spec,
  first_phase, waiting_phase, last_phase,
}

execute-complete_phases_example :
    All (λ ph. IsComplete (execute cluster metadata (active deploy) 5).status ph.name) deploy.phases
unfolding execute run_phase find_phase set run_step modify_phase find_step run_task find_task build
    run remove string_array_to_set contains step_names_to_set
execute-complete_phases_example =
    execute-complete_phases cluster metadata (active deploy) 5 refl refl

execute-complete_steps_example :
    HasCompleteSteps cluster metadata
      (active deploy)
      "first"
      deploy.phases
      (execute cluster metadata (active deploy) 5).status
unfolding execute run_phase find_phase set run_step modify_phase find_step run_task find_task build
    run remove string_array_to_set contains step_names_to_set
execute-complete_steps_example =
    execute-complete_steps cluster metadata (active deploy) 5 "first" refl (λ (p, f, d). cc (f, d))
      refl (_, refl, refl)

run_step-IsDone_example : All (IsDone cluster metadata (active deploy)) ("install" ∷ "note" ∷ [])
unfolding execute run_phase find_phase set run_step modify_phase find_step run_task find_task build
    run remove string_array_to_set contains step_names_to_set modify_step
run_step-IsDone_example =
    run_step-IsDone cluster metadata (active deploy) first_phase
      (record { name = "all"; tasks = "install" ∷ "note" ∷ [] }) begin_steps (_, refl, refl)
      (_, refl, refl)

run_step-Chain_example :
    Chain cluster metadata
      (active deploy)
      first_phase
      (record { name = "all"; tasks = "install" ∷ "note" ∷ [] })
      begin_steps.plan.uid
      ("install" ∷ "note" ∷ [])
      begin_steps.world
      (flow_world (
        run_step cluster metadata
          (active deploy)
          first_phase
          (record { name = "all"; tasks = "install" ∷ "note" ∷ [] })
          begin_steps))
unfolding execute run_phase find_phase set run_step modify_phase find_step run_task find_task build
    run remove string_array_to_set contains step_names_to_set modify_step
run_step-Chain_example =
    run_step-Chain cluster metadata (active deploy) first_phase
      (record { name = "all"; tasks = "install" ∷ "note" ∷ [] }) begin_steps (refl, (refl, tt))
      (_, refl, refl) (_, refl, refl)

execute-Verdict_example :
    Verdict cluster metadata (active blocked) (execute cluster metadata (active blocked) 5)
execute-Verdict_example = execute-Verdict cluster metadata (active blocked) 5 refl

run_phases_serial_example :
    run_phases cluster metadata (active blocked) (waiting_phase ∷ last_phase ∷ []) begin_phases
    ≡ run_phases cluster metadata (active blocked) (waiting_phase ∷ []) begin_phases
unfolding execute run_phase find_phase set run_step modify_phase find_step run_task find_task build
    run remove string_array_to_set contains step_names_to_set
run_phases_serial_example =
    run_phases_serial cluster metadata (active blocked) refl [] waiting_phase (last_phase ∷ [])
      begin_phases (λ (p, f, d). cc (f, d))

abbrev completed : PhaseStatus
completed = record {
  name = "first";
  status = complete;
  message = "";
  steps = record { name = "all"; message = ""; status = complete } ∷ [];
}

abbrev second_round : Loop ℕ ℕ
second_round = record { plan = plan_status "deploy" complete; left = 2; world = 5 }

abbrev certificates : PipeTask
certificates = record { name = "certs"; pod = "pod.yaml"; pipe_files = to_pipe_file pipe_spec ∷ [] }

abbrev exposed : ToggleTask
exposed = record { name = "expose"; resources = "service.yaml" ∷ []; parameter = "enabled" }

abbrev context : Context (Unit {0})
context = record {
  meta = record {
    engine = metadata;
    plan_name = "deploy";
    plan_uid = "a";
    phase_name = "first";
    step_name = "all";
    task_name = "expose";
  };
  templates = [];
  parameters = ("enabled", text "false") ∷ [];
  pipes = [];
}
