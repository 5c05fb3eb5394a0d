-- ===== src/Admission.antt =====
-- pkg/webhook/instance_admission.go: the admission of new and of changed instances.
pub mod Parameters
pub mod Decision
pub mod Handler
pub mod Rules
pub mod Accepted
pub mod Plans
pub mod Immutable
pub mod Created
pub mod Updated
