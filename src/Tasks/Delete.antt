-- ===== src/Tasks/Delete.antt =====
-- pkg/engine/task/task_delete.go: the method `Run` of a delete task.
use kudo.Prelude.{
  String, Bool, true, false, List, [], ◌∷◌, Option, none, some, Result, ok, err, concat,
  if◌then◌else◌,
}
use kudo.Engine.{Error, plain_error}
use kudo.Kube.Act.{Act, pure, lift, failing, map_error, ◌>>=◌}
use kudo.Kube.Objects.{gvk_text, ApiError, Client}
use kudo.Kube.Keys.{is_known_object_type, is_deleted}
use kudo.Tasks.Tasker.{DeleteTask}
use kudo.Tasks.Run.{Context, RunResult, fatal_execution_error}
use kudo.Tasks.Render.{Machinery, render, convert}

-- `!apierrors.IsNotFound(err) && err != nil`
abbrev pub delete_error : Option ApiError → Option Error
delete_error none = none
delete_error (some e) = if e.not_found then none else some (plain_error e.text)

-- `deleteResource`: the loop ends at the first error.
unfoldable pub delete_resource : {O W : Type 0} → Client O W → List O → W → Option Error × W
delete_resource client [] w = (none, w)
delete_resource client (r ∷ rest) w =
    let (e, w') = client.delete r w in
    elim (delete_error e) [ none ↦ delete_resource client rest w' | some x ↦ (some x, w') ]

module _ {Y O W : Type 0} (m : Machinery Y O W) where
  unfoldable pub filter_unknown_object_types : List O → Act String W (List O)
  filter_unknown_object_types [] = pure []
  filter_unknown_object_types (o ∷ rest) = do
    known ←
        failing
          (λ (e : String). concat (
            "failed to detect if object type is known for "
            ∷ gvk_text (m.objects.gvk o)
            ∷ ": "
            ∷ e
            ∷ []))
          (is_known_object_type m.client m.objects o)
    later ← filter_unknown_object_types rest
    pure (if known then o ∷ later else later)

  -- What the loop does with the answer for one object, and with the rest.
  abbrev pub if_deleted : Result String (Bool × String) → (W → Bool × W) → W → Bool × W
  if_deleted (ok (true, msg)) next w = next w
  if_deleted (ok (false, msg)) next w = (false, w)
  if_deleted (err e) next w = (false, w)

  -- An error is logged and not returned.
  unfoldable pub all_objs_deleted : List O → W → Bool × W
  unfolding is_deleted
  all_objs_deleted [] w = (true, w)
  all_objs_deleted (o ∷ rest) w =
      let (r, w') = is_deleted m.client m.objects o w in if_deleted r (all_objs_deleted rest) w'

  -- The steps 1 to 4.
  unfoldable pub objects_to_delete : List String → Context Y → Act Error W (List O)
  unfolding render convert filter_unknown_object_types fatal_execution_error
  objects_to_delete names ctx = do
    let fatal = λ (e : String). fatal_execution_error e "TaskRenderingError" ctx.meta
    rendered ← lift (map_error fatal (render m names ctx))
    objs ← lift (map_error fatal (convert m rendered))
    known ← failing fatal (filter_unknown_object_types objs)
    m.enhancer known ctx.meta

  -- The steps 5 and 6.
  abbrev pub after_delete : List O → Option Error × W → RunResult × W
  after_delete objs (some e, w) = ((false, some e), w)
  after_delete objs (none, w) = let (deleted, w') = all_objs_deleted objs w in ((deleted, none), w')

  abbrev pub delete_objects : Result Error (List O) × W → RunResult × W
  delete_objects (err e, w) = ((false, some e), w)
  delete_objects (ok objs, w) = after_delete objs (delete_resource m.client objs w)

  unfoldable pub run_delete : DeleteTask → Context Y → W → RunResult × W
  unfolding objects_to_delete delete_resource all_objs_deleted
  run_delete dt ctx w = delete_objects (objects_to_delete dt.resources ctx w)
