-- ===== src/Tasks/Tasker.antt =====
-- pkg/engine/task: the implementations of the interface `Tasker`, one constructor for each.
use kudo.Prelude.{String, Bool, List}

pub record PipeFile : Type 0 where
  pub file : String
  pub env_file : String
  pub kind : String
  pub key : String

pub record ApplyTask : Type 0 where
  pub name : String
  pub resources : List String

pub record DeleteTask : Type 0 where
  pub name : String
  pub resources : List String

pub record DummyTask : Type 0 where
  pub name : String
  pub want_err : Bool
  pub fatal : Bool
  pub done : Bool

pub record PipeTask : Type 0 where
  pub name : String
  pub pod : String
  pub pipe_files : List PipeFile

pub record ToggleTask : Type 0 where
  pub name : String
  pub resources : List String
  pub parameter : String

pub record KudoOperatorTask : Type 0 where
  pub name : String
  pub operator_name : String
  pub instance_name : String
  pub app_version : String
  pub operator_version : String
  pub parameter_file : String

pub data Tasker : Type 0 where
  apply : ApplyTask → Tasker
  delete : DeleteTask → Tasker
  dummy : DummyTask → Tasker
  pipe : PipeTask → Tasker
  toggle : ToggleTask → Tasker
  kudo_operator : KudoOperatorTask → Tasker
