-- ===== src/Repository.antt =====
-- The repository of packages (pkg/kudoctl/util/repo), and the choice among the versions of an operator.
pub mod Sorting
pub mod Order
pub mod Index
pub mod Directory
pub mod Lookup
pub mod Versions
pub mod Newest
pub mod Chosen
pub mod Indexed
