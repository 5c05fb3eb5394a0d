-- ===== src/Workflow.antt =====
-- pkg/engine/workflow: the execution of a plan.
pub mod Loop
pub mod Execute
pub mod Cases
pub mod Frame
pub mod Status
pub mod Complete
pub mod Serial
pub mod Sets
pub mod Steps
pub mod StepSets
pub mod PhaseKeeps
pub mod Finishes
pub mod PhaseSteps
pub mod TasksDone
pub mod Left
pub mod Chain
pub mod Tasks
