-- ===== src/Verifier.antt =====
-- pkg/kudoctl/packages/verifier: the checks of the files of an operator package.
pub mod Files
pub mod References
pub mod Defined
pub mod Nodes
pub mod Templates
pub mod Required
pub mod Fields
pub mod Found
