-- ===== src/Tasks/Patch.antt =====
-- pkg/engine/task/task_apply.go: the annotation with the last applied configuration, the two
-- configurations that are read from it and written to it, and the patch of an existing resource.
use kudo.Prelude.{
  String, Bool, true, false, ◌||◌, List, [], ◌∷◌, Option, none, some, Result, ok, err, concat, ◌==◌,
  if◌then◌else◌,
}
use kudo.Prelude
use kudo.Prelude.Maps.{lookup, insert, delete}
use kudo.Engine.{Error, plain_error}
use kudo.Kube.Act.{Act, lift, map_error, ◌>>=◌}
use kudo.Kube.Objects.{
  GoType, unstructured, crd_v1beta1, crd_v1, operator_version, operator, instance, MergeError,
  Objects, PatchType, merge_patch, strategic_merge_patch, ApiError, Client,
}
use kudo.Tasks.Run.{TaskMetadata, fatal_execution_error}

abbrev pub last_applied_config_annotation : String
last_applied_config_annotation = "kudo.dev/last-applied-configuration"

abbrev pub or_empty : Option (List (String × String)) → List (String × String)
or_empty none = []
or_empty (some m) = m

-- `annots[key]`, the empty text if it is missing.
abbrev pub value_of : Option String → String
value_of none = ""
value_of (some s) = s

abbrev pub is_kudo_type : GoType → Bool
is_kudo_type operator_version = true
is_kudo_type operator = true
is_kudo_type instance = true
is_kudo_type _ = false

abbrev pub use_simple_three_way_merge : GoType → Bool
use_simple_three_way_merge unstructured = true
use_simple_three_way_merge crd_v1beta1 = true
use_simple_three_way_merge crd_v1 = true
use_simple_three_way_merge t = is_kudo_type t

module _ {O : Type 0} (objects : Objects O) where
  unfoldable pub add_last_applied_config_annotation : O → Result String O
  unfolding insert
  add_last_applied_config_annotation r = elim (objects.marshal r) [
    | err e ↦ err (concat ("failed to marshal obj: " ∷ e ∷ []))
    | ok serialized ↦ elim (objects.annotations r) [
      | err e ↦ err (concat ("failed to access annotations: " ∷ e ∷ []))
      | ok annots ↦
          objects.set_annotations
            (insert last_applied_config_annotation serialized (or_empty annots)) r
    ]
  ]

  -- The empty text stands for nil bytes too.
  abbrev original_of : Option String → Result String String
  original_of none = err "LastAppliedConfigAnnotation is not set"
  original_of (some original) =
      if original == "" || objects.is_json_map original
      then ok original
      else err "LastAppliedConfigAnnotation is invalid JSON"

  abbrev original_in : Option (List (String × String)) → Result String String
  original_in none = ok ""
  original_in (some annots) = original_of (lookup last_applied_config_annotation annots)

  unfoldable pub get_original_configuration : O → Result String String
  unfolding lookup
  get_original_configuration obj = Prelude.◌>>=◌ (objects.annotations obj) original_in

  -- The configuration with the annotation of itself, and the object with the annotation set again.
  abbrev pub annotated :
      Bool
      → List (String × String)
      → String
      → O
      → Result String (String × List (String × String) × O)
  annotated false annots modified obj = ok (modified, annots, obj)
  annotated true annots modified obj =
      let annots = insert last_applied_config_annotation modified annots in
      Prelude.◌>>=◌ (objects.set_annotations annots obj)
        λ o. Prelude.◌>>=◌ (objects.encode o) λ again. ok (again, annots, o)

  unfoldable pub get_modified_configuration : O → Bool → Result String (String × O)
  unfolding lookup insert delete
  get_modified_configuration obj annotate = Prelude.◌>>=◌ (objects.annotations obj) λ found.
      let annots = or_empty found in
      let original = value_of (lookup last_applied_config_annotation annots) in
      let without = delete last_applied_config_annotation annots in
      Prelude.◌>>=◌ (objects.set_annotations without obj) λ bare.
        Prelude.◌>>=◌ (objects.encode bare) λ modified.
          Prelude.◌>>=◌ (annotated annotate without modified bare) λ r.
            Prelude.◌>>=◌
              (objects.set_annotations (insert last_applied_config_annotation original r.1) r.2)
              λ restored. ok (r.0, restored)

  abbrev merge_error : MergeError → String
  merge_error e =
      if e.precondition_failed
      then "At least one of apiVersion, kind and name was changed"
      else concat (" failed to create json merge patch: " ∷ e.text ∷ [])

  abbrev pub simple_three_way_merge_patch : String → String → String → Result String String
  simple_three_way_merge_patch original modified current =
      map_error merge_error (objects.json_merge_patch original modified current)

  unfoldable pub strategic_three_way_merge_patch :
      O → String → String → String → Result String String
  strategic_three_way_merge_patch r original modified current = elim (objects.has_patch_meta r) [
    | err e ↦ err (concat ("failed to create patch meta " ∷ e ∷ []))
    | ok t ↦
        map_error (λ (e : String). concat ("failed to create patch data " ∷ e ∷ []))
          (objects.strategic_patch r original modified current)
  ]

  -- The type of the patch and its text.
  abbrev patch_data : O → String → String → String → PatchType × Result String String
  patch_data r original modified current =
      if use_simple_three_way_merge (objects.go_type r)
      then (merge_patch, simple_three_way_merge_patch original modified current)
      else (strategic_merge_patch, strategic_three_way_merge_patch r original modified current)

  module _ (meta : TaskMetadata) where
    abbrev rendering : {A : Type 0} → String → Result String A → Result Error A
    rendering prefix =
        map_error (λ (e : String).
          fatal_execution_error (concat (prefix ∷ e ∷ [])) "TaskRenderingError" meta)

    -- The patch that brings the current object to the modified one.
    unfoldable pub create_patch : O → O → Result Error (O × PatchType × String)
    unfolding get_original_configuration get_modified_configuration strategic_three_way_merge_patch
        fatal_execution_error
    create_patch modified_obj current_obj =
        Prelude.◌>>=◌ (rendering "failed to marshal current " (objects.marshal current_obj))
          λ current.
            Prelude.◌>>=◌
              (rendering "failed to get original configuration "
                (get_original_configuration current_obj))
              λ original.
                Prelude.◌>>=◌
                  (rendering "failed to get modified config "
                    (get_modified_configuration modified_obj true))
                  λ modified.
                    let (type, patch) = patch_data modified.1 original modified.0 current in
                    Prelude.◌>>=◌ (rendering "failed to create patch: " patch)
                      λ text. ok (modified.1, type, text)

    abbrev pub patch_answer : {W : Type 0} → (Option ApiError × O) × W → Result Error O × W
    patch_answer ((none, o), w) = (ok o, w)
    patch_answer ((some e, o), w) =
        (err (plain_error (concat ("failed to execute patch: " ∷ e.text ∷ []))), w)

    -- The modified object, as the server answers it.
    unfoldable pub patch_resource : {W : Type 0} → Client O W → O → O → Act Error W O
    unfolding create_patch
    patch_resource client modified_obj current_obj = do
      patch ← lift (create_patch modified_obj current_obj)
      λ w. patch_answer (client.patch patch.0 patch.1 patch.2 w)
