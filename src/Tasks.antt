-- ===== src/Tasks.antt =====
-- pkg/engine/task: the tasks that a plan's steps name.
pub mod Tasker
pub mod Build
pub mod Run
pub mod Built
pub mod Names
pub mod Render
pub mod Patch
pub mod Apply
pub mod Stored
pub mod Delete
pub mod KudoOperator
pub mod EnvFile
pub mod PipePod
pub mod PipeFiles
pub mod Pipe
pub mod Engine
pub mod Gone
pub mod Installed
pub mod Truncated
pub mod ValidPod
