-- ===== src/Api/StepStatus.antt =====
-- pkg/apis/kudo/v1beta1/instance_types.go: the status of a step and its setters.
use kudo.Prelude.{String}
use kudo.Api.ExecutionStatus.{ExecutionStatus}

pub record StepStatus : Type 0 where
  pub name : String
  pub message : String
  pub status : ExecutionStatus

abbrev pub set_with_message : ExecutionStatus → String → StepStatus → StepStatus
set_with_message status message s = record s { status = status; message = message }

abbrev pub set : ExecutionStatus → StepStatus → StepStatus
set status s = record s { status = status; message = "" }
