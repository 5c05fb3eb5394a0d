-- ===== src/Api.antt =====
-- The custom resources of pkg/apis/kudo/v1beta1.
pub mod ExecutionStatus
pub mod StepStatus
pub mod PhaseStatus
pub mod PlanStatus
pub mod Operator
pub mod Instance
pub mod Parameters
