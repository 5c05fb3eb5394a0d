-- ===== src/Samples.antt =====
-- Concrete plans, instances and operator versions, and what the theorems say of them.
mod Data
mod Files
mod Runs
mod Updates
mod Reconciles
mod Packages
mod Pods
mod Requests
mod Stores
mod Texts
mod Sorted
mod Indexes
mod Installs
mod Templates
