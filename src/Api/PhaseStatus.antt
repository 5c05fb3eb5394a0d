-- ===== src/Api/PhaseStatus.antt =====
-- pkg/apis/kudo/v1beta1/instance_types.go and instance_types_helpers.go: the status of a phase,
-- its setters and the search for one of its steps. A Go pointer to the step that the search finds is
-- its name; a write through the pointer is `update_step`.
pub mod Find
use kudo.Prelude.{String, List, [], ◌∷◌, Option, none, some, ◌==◌, if◌then◌else◌}
use kudo.Api.ExecutionStatus.{ExecutionStatus}
use kudo.Api.StepStatus.{StepStatus}

pub record PhaseStatus : Type 0 where
  pub name : String
  pub status : ExecutionStatus
  pub message : String
  pub steps : List StepStatus

abbrev pub set_with_message : ExecutionStatus → String → PhaseStatus → PhaseStatus
set_with_message status message s = record s { status = status; message = message }

abbrev pub set : ExecutionStatus → PhaseStatus → PhaseStatus
set status s = record s { status = status; message = "" }

unfoldable pub find_step : String → List StepStatus → Option StepStatus
find_step name [] = none
find_step name (s ∷ rest) = if s.name == name then some s else find_step name rest

unfoldable pub modify_step : String → (StepStatus → StepStatus) → List StepStatus → List StepStatus
modify_step name f [] = []
modify_step name f (s ∷ rest) = if s.name == name then f s ∷ rest else s ∷ modify_step name f rest

-- `GetStepStatus` and the method `Step`.
abbrev pub get_step_status : String → PhaseStatus → Option StepStatus
get_step_status name s = find_step name s.steps

abbrev pub update_step : String → (StepStatus → StepStatus) → PhaseStatus → PhaseStatus
update_step name f s = record s { steps = modify_step name f s.steps }
