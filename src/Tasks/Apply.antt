-- ===== src/Tasks/Apply.antt =====
-- pkg/engine/task/task_apply.go: the loop that creates and patches resources, their health, and the
-- method `Run` of an apply task.
use kudo.Prelude.{
  String, Bool, true, false, List, [], ◌∷◌, Option, none, some, Result, ok, err, concat,
  if◌then◌else◌,
}
use kudo.Engine.{Error, plain_error, fatal_error_with}
use kudo.Health.Objects.{Object, is_healthy, is_terminally_failed}
use kudo.Kube.Act.{Act, pure, lift, failing, map_error, ◌>>=◌}
use kudo.Kube.Objects.{gvk_text, ObjectKey, key_text, ApiError}
use kudo.Kube.Keys.{object_key_from_object}
use kudo.Tasks.Tasker.{ApplyTask}
use kudo.Tasks.Run.{TaskMetadata, Context, RunResult, fatal_execution_error}
use kudo.Tasks.Render.{Machinery, render, convert, enhance}
use kudo.Tasks.Patch.{add_last_applied_config_annotation, patch_resource}

-- `fmt.Errorf("...: %w", err)`
abbrev pub wrapped : String → Error → Error
wrapped prefix e = record {
  text = concat (prefix ∷ e.text ∷ []);
  fatal = e.fatal;
  wrapper = e.wrapper;
}

abbrev health_error : Bool × String → String → Error
health_error (true, terminal_msg) msg =
    fatal_error_with (concat ("fatal error: HealthUtil: " ∷ terminal_msg ∷ []))
health_error (false, terminal_msg) msg = plain_error msg

-- The error of a health check.
abbrev pub health_of : Object → Result Error (Bool × String) → Option Error
health_of o (err e) = some e
health_of o (ok (true, msg)) = none
health_of o (ok (false, msg)) = some (health_error (is_terminally_failed (some o)) msg)

unfoldable pub is_resource_healthy : Object → Option Error
unfolding is_healthy is_terminally_failed
is_resource_healthy o = health_of o (is_healthy (some o))

module _ {Y O W : Type 0} (m : Machinery Y O W) where
  -- How a message names an object.
  abbrev object_text : O → ObjectKey → String
  object_text r key = concat (gvk_text (m.objects.gvk r) ∷ " " ∷ key_text key ∷ [])

  -- The server's answer overwrites the object, and the kind that it loses is set again.
  abbrev pub create_answer : O → (Option ApiError × O) × W → Result Error O × W
  create_answer r ((none, o), w) = (ok (m.objects.set_gvk (m.objects.gvk r) o), w)
  create_answer r ((some e, o), w) = (err (plain_error e.text), w)

  unfoldable pub create_resource : O → ObjectKey → Act Error W O
  unfolding add_last_applied_config_annotation
  create_resource r key = do
    annotated ← lift (
        map_error
          (λ (e : String). plain_error (
            concat (
              "failed to add last applied config annotation to a "
              ∷ object_text r key
              ∷ ": "
              ∷ e
              ∷ [])))
          (add_last_applied_config_annotation m.objects r))
    λ w. create_answer r (m.client.create annotated w)

  module _ (meta : TaskMetadata) where
    unfoldable pub apply_found : O → ObjectKey → Result ApiError O → Act Error W O
    unfolding create_resource patch_resource
    apply_found r key (err e) =
        if e.not_found then create_resource r key else lift (err (plain_error e.text))
    apply_found r key (ok existing) =
        failing (wrapped (concat ("failed to patch a " ∷ object_text r key ∷ ": " ∷ [])))
          (patch_resource m.objects meta m.client r existing)

    -- One round of the loop.
    unfoldable pub apply_resource : O → Act Error W O
    unfolding object_key_from_object apply_found
    apply_resource r = do
      key ← failing plain_error (object_key_from_object m.client m.objects r)
      λ w. apply_found r key (m.client.get key r w) w

    unfoldable pub apply_resources : List O → Act Error W (List O)
    unfolding apply_resource
    apply_resources [] = pure []
    apply_resources (r ∷ rest) = do
      o ← apply_resource r
      later ← apply_resources rest
      pure (o ∷ later)

  -- `key, _ := client.ObjectKeyFromObject(r)`
  abbrev pub key_or_zero : Result String ObjectKey → ObjectKey
  key_or_zero (ok key) = key
  key_or_zero (err e) = record { namespace = ""; name = "" }

  abbrev pub not_healthy : ObjectKey → Error → Error
  not_healthy key = wrapped (concat ("object " ∷ key_text key ∷ " is NOT healthy: " ∷ []))

  -- The first resource that is not healthy.
  unfoldable pub all_healthy : List O → Option Error
  unfolding is_resource_healthy
  all_healthy [] = none
  all_healthy (r ∷ rest) = elim (is_resource_healthy (m.health_view r)) [
    | none ↦ all_healthy rest
    | some e ↦ some (not_healthy (key_or_zero (m.objects.object_key r)) e)
  ]

  -- The steps 1 and 2: render, convert, enhance.
  unfoldable pub prepare_objects : List String → Context Y → Act Error W (List O)
  unfolding render convert enhance fatal_execution_error
  prepare_objects names ctx = do
    rendered ← lift (
        map_error (λ (e : String). fatal_execution_error e "TaskRenderingError" ctx.meta)
          (render m names ctx))
    objs ← lift (
        map_error (λ (e : String). fatal_execution_error e "TaskRenderingError" ctx.meta)
          (convert m rendered))
    enhance m objs ctx.meta

  -- The steps 1 to 3.
  unfoldable pub apply_objects : List String → Context Y → Act Error W (List O)
  unfolding prepare_objects apply_resources
  apply_objects names ctx = do
    enhanced ← prepare_objects names ctx
    apply_resources ctx.meta enhanced

  abbrev pub after_health : TaskMetadata → Option Error → RunResult
  after_health meta none = (true, none)
  after_health meta (some e) = (
    false,
    if e.fatal then some (fatal_execution_error e.text "FailedTerminalStateError" meta) else none,
  )

  abbrev pub after_apply : TaskMetadata → Result Error (List O) → RunResult
  after_apply meta (err e) = (false, some e)
  after_apply meta (ok applied) = after_health meta (all_healthy applied)

  unfoldable pub run_apply : ApplyTask → Context Y → W → RunResult × W
  unfolding apply_objects all_healthy fatal_execution_error
  run_apply at ctx w =
      let (r, w') = apply_objects at.resources ctx w in (after_apply ctx.meta r, w')
