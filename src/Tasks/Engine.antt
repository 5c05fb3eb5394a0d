-- ===== src/Tasks/Engine.antt =====
-- pkg/engine/task: the tasks' methods `Run` as the interface `Cluster` through which the workflow
-- engine runs them.
use kudo.Prelude.{ℕ}
use kudo.Tasks.Run.{Cluster}
use kudo.Tasks.Render.{Machinery}
use kudo.Tasks.Apply.{run_apply}
use kudo.Tasks.Delete.{run_delete}
use kudo.Tasks.PipeFiles.{PipeTools}
use kudo.Tasks.Pipe.{run_pipe}
use kudo.Tasks.KudoOperator.{Instances, run_kudo_operator}

pub record Tools (Y J O W : Type 0) : Type 0 where
  pub now : W → ℕ
  pub machinery : Machinery Y O W
  pub pipe_tools : PipeTools O W
  pub instances : Instances Y J W

abbrev pub engine_cluster : {Y J O W : Type 0} → Tools Y J O W → Cluster Y W
engine_cluster tools = record {
  now = tools.now;
  run_apply = run_apply tools.machinery;
  run_delete = run_delete tools.machinery;
  run_pipe = run_pipe tools.machinery tools.pipe_tools;
  run_kudo_operator = run_kudo_operator tools.instances;
}
