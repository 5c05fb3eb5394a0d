-- ===== src/Health.antt =====
-- pkg/kubernetes/status: the health of resources, and the readiness of an instance.
pub mod Objects
pub mod Readiness
pub mod Ready
