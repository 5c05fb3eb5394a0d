-- ===== src/Kudoctl.antt =====
-- The parts of pkg/kudoctl that the controller uses too, and those that choose what is installed.
pub mod Params
pub mod Parsed
pub mod Convert
pub mod Client
pub mod Install
pub mod Created
pub mod Installed
pub mod Converted
pub mod Resolver
pub mod Package
pub mod Given
