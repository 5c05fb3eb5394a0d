-- ===== src/Controller.antt =====
-- pkg/controller/instance/instance_controller.go: the reconciliation of instances.
pub mod Plans
pub mod Prepare
pub mod InCluster
pub mod Resolved
pub mod Backoff
pub mod Reconcile
pub mod Statuses
pub mod Retries
pub mod Fresh
pub mod Parameters
pub mod Pipes
