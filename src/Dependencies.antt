-- ===== src/Dependencies.antt =====
-- pkg/kudoctl/resources/dependencies/resolve.go: the dependencies of an operator version.
pub mod Resolve
pub mod Walk
pub mod Names
pub mod Edges
pub mod Linked
pub mod Visits
pub mod Results
