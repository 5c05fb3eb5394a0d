-- ===== src/Tasks/Pipe.antt =====
-- pkg/engine/task/task_pipe.go: the method `Run` of a pipe task.
use kudo.Prelude.{String, true, false, List, [], ◌∷◌, Option, none, some, Result, ok, err, concat}
use kudo.Prelude.Maps.{lookup}
use kudo.Engine.{Error, plain_error}
use kudo.Kube.Act.{Act, lift, map_error, ◌>>=◌, ◌>>◌}
use kudo.Tasks.Tasker.{PipeTask}
use kudo.Tasks.Run.{TaskMetadata, Context, RunResult, fatal_execution_error}
use kudo.Tasks.Names.{pipe_pod_name}
use kudo.Tasks.Render.{Machinery, render, convert, enhance}
use kudo.Tasks.Apply.{apply_resources, all_healthy}
use kudo.Tasks.Delete.{delete_resource}
use kudo.Tasks.PipePod.{PipePod, validate, pipe_pod}
use kudo.Tasks.PipeFiles.{
  pipe_task_error, MemFs, PipeTools, copy_files, copy_each, create_artifacts,
}

module _ {Y O W : Type 0} (m : Machinery Y O W) (t : PipeTools O W) where
  abbrev rendered_pod : Option String → String
  rendered_pod none = ""
  rendered_pod (some s) = s

  abbrev no_error : String → TaskMetadata → Option String → Result Error (Unit {0})
  no_error event meta none = ok tt
  no_error event meta (some e) = err (fatal_execution_error e event meta)

  -- The steps 1 to 7: the pod, as the server returned it.
  unfoldable pub apply_pod : PipeTask → Context Y → Act Error W (List O)
  unfolding render convert enhance validate pipe_pod pipe_pod_name apply_resources lookup
      fatal_execution_error
  apply_pod pt ctx = do
    let fatal = λ (event e : String). fatal_execution_error e event ctx.meta
    rendered ← lift (map_error (fatal "TaskRenderingError") (render m (pt.pod ∷ pt.pod ∷ []) ctx))
    usr_pod ← lift (
        map_error
          (λ (e : String).
            fatal "ResourceUnmarshalError" (concat ("failed to unmarshall pipe pod: " ∷ e ∷ [])))
          (t.unmarshal (rendered_pod (lookup pt.pod rendered))))
    lift (no_error "ResourceValidationError" ctx.meta (validate t.paths usr_pod pt.pipe_files))
    pod_yaml ← lift (
        map_error
          (λ (e : String).
            fatal pipe_task_error (concat ("failed to create pipe task pod: " ∷ e ∷ [])))
          (t.marshal (pipe_pod usr_pod (pipe_pod_name ctx.meta))))
    objs ←
        lift (map_error (fatal "TaskRenderingError") (convert m (("pipe-pod.yaml", pod_yaml) ∷ [])))
    pod_obj ← enhance m objs ctx.meta
    apply_resources m ctx.meta pod_obj

  abbrev copied : Option Error × MemFs → Result Error MemFs
  copied (some e, fs) = err e
  copied (none, fs) = ok fs

  abbrev first_pod : List O → Result Error PipePod
  first_pod [] = err (plain_error "runtime error: index out of range [0] with length 0")
  first_pod (o ∷ rest) = elim (t.as_pod o) [
    | none ↦ err (plain_error "internal error: pipe pod changed type after enhance and apply")
    | some pod ↦ ok pod
  ]

  -- `deleteResource`, as an action.
  abbrev or_done : Option Error → Result Error (Unit {0})
  or_done none = ok tt
  or_done (some e) = err e

  abbrev deleted : List O → Act Error W (Unit {0})
  deleted objs w = let (e, w') = delete_resource m.client objs w in (or_done e, w')

  -- The steps 9 to 14, with the pod ready. Without a pod Go panics, with the text below.
  unfoldable pub copy_out : PipeTask → Context Y → List O → Act Error W (Unit {0})
  unfolding convert enhance copy_each create_artifacts apply_resources delete_resource
      fatal_execution_error
  copy_out pt ctx pod_obj = do
    pod ← lift (first_pod pod_obj)
    fs ← λ w. (copied (copy_files t ctx.meta pt.pipe_files pod w), w)
    art_str ← lift (map_error plain_error (create_artifacts t ctx.meta fs pt.pipe_files []))
    art_objs ← lift (
        map_error (λ (e : String). fatal_execution_error e "TaskRenderingError" ctx.meta)
          (convert m art_str))
    art_obj ← enhance m art_objs ctx.meta
    apply_resources m ctx.meta art_obj
    deleted pod_obj

  abbrev pub pipe_result : Result Error (Unit {0}) → RunResult
  pipe_result (ok u) = (true, none)
  pipe_result (err e) = (false, some e)

  abbrev pub if_ready : PipeTask → Context Y → List O → Option Error → W → RunResult × W
  if_ready pt ctx pod_obj (some e) w = ((false, none), w)
  if_ready pt ctx pod_obj none w = let (r, w') = copy_out pt ctx pod_obj w in (pipe_result r, w')

  abbrev pub after_pod : PipeTask → Context Y → Result Error (List O) × W → RunResult × W
  after_pod pt ctx (err e, w) = ((false, some e), w)
  after_pod pt ctx (ok pod_obj, w) = if_ready pt ctx pod_obj (all_healthy m pod_obj) w

  unfoldable pub run_pipe : PipeTask → Context Y → W → RunResult × W
  unfolding apply_pod copy_out all_healthy
  run_pipe pt ctx w = after_pod pt ctx (apply_pod pt ctx w)
