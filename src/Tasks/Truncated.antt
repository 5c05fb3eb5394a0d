-- ===== src/Tasks/Truncated.antt =====
-- Three things that the code of a task does and its comments do not say: where the scanner of an env
-- file stops, which names of pipe files pass, and what is left of an object whose configuration was read.
use kudo.Prelude.{
  ok_injective, ◌≡◌, refl, sym, ap, ◌∙◌, inl, inr, ◌≤◌, String, Bool, true, false, List, [], ◌∷◌,
  ◌++◌, Option, some, ok, >>=-eq-ok, length, ◌==◌, if◌then◌else◌, arith, Bool-cases,
}
use kudo.Prelude.Maps.{lookup, insert, delete, lookup-insert, lookup-delete}
use kudo.Kube.Objects.{Objects}
use kudo.Tasks.EnvFile.{
  Bytes, EnvTools, add_lines, split_lines, scan, max_scan_token_size, add_from_env_file,
}
use kudo.Tasks.Patch.{
  last_applied_config_annotation, or_empty, value_of, annotated, get_modified_configuration,
}

-- The lines before the first that does not fit into the scanner's buffer.
scan_stops :
    (front back : List Bytes) (line : Bytes)
    → max_scan_token_size ≤ length line
    → scan (front ++ line ∷ back) ≡ scan front
unfolding scan
scan_stops [] back line h = ground arith
scan_stops (x ∷ front) back line h = ground (arith, scan_stops front back line h)

-- If a line of an env file has 65,536 bytes or more, then the file is read as if it ended before that
-- line: the same variables, and no error for the rest.
pub add_from_env_file-truncates :
    (tools : EnvTools) (file whole : Bytes) (front back : List Bytes) (line : Bytes)
    → split_lines file ≡ front
    → split_lines whole ≡ front ++ line ∷ back
    → max_scan_token_size ≤ length line
    → add_from_env_file tools whole ≡ add_from_env_file tools file
unfolding add_from_env_file
add_from_env_file-truncates tools file whole front back line e f h =
    ap (λ ls. add_lines tools (scan ls) 0) f
    ∙ ap (λ ls. add_lines tools ls 0) (scan_stops front back line h)
    ∙ ap (λ ls. add_lines tools (scan ls) 0) (sym e)

-- The last of three writes decides the value of the annotation, and the others are as before.
restored_lookup :
    (original key : String) (annots between : List (String × String))
    → ((last_applied_config_annotation == key) ≡ false
        → lookup key between ≡ lookup key (delete last_applied_config_annotation annots))
    → lookup key (insert last_applied_config_annotation original between)
      ≡ (if last_applied_config_annotation == key then some original else lookup key annots)
restored_lookup original key annots between h =
    elim (Bool-cases (last_applied_config_annotation == key)) [
      | inl f ↦ lookup-insert last_applied_config_annotation key original between ∙ rw f refl
      | inr f ↦ ground (
        arith,
        f,
        h f,
        lookup-insert last_applied_config_annotation key original between,
        lookup-delete last_applied_config_annotation key annots,
      )
    ]

module _ {O : Type 0} (objects : Objects O) where
  -- What apimachinery documents of its accessor: the annotations that are set are those that are read.
  abbrev pub Accessor : Type 0
  Accessor =
      (annots : List (String × String)) (o o' : O)
      → objects.set_annotations annots o ≡ ok o'
      → objects.annotations o' ≡ ok (some annots)

  annotated-keeps :
      (annotate : Bool) (annots : List (String × String)) (text : String) (o : O)
      (r : String × List (String × String) × O) (key : String)
      → annotated objects annotate annots text o ≡ ok r
      → (last_applied_config_annotation == key) ≡ false
      → lookup key r.1 ≡ lookup key annots
  annotated-keeps false annots text o r key h f =
      ap (λ x. lookup key x.1) (sym (ok_injective _ _ h))
  annotated-keeps true annots text o r key h f =
      let more = insert last_applied_config_annotation text annots in
      let (set, a, k) = >>=-eq-ok (objects.set_annotations more o) _ h in
      let (again, b, l) = >>=-eq-ok (objects.encode set) _ k in
      ap (λ x. lookup key x.1) (sym (ok_injective _ _ l))
      ∙ lookup-insert last_applied_config_annotation key text annots
      ∙ rw f refl

  -- If `getModifiedConfiguration` returns no error, then the object has afterwards every annotation that
  -- it had, and the one with the last applied configuration: empty, if it was not there.
  pub get_modified_configuration-annotations :
      Accessor
      → (o restored : O) (modified : String) (before : Option (List (String × String)))
        (annotate : Bool)
      → objects.annotations o ≡ ok before
      → get_modified_configuration objects o annotate ≡ ok (modified, restored)
      → (after : List (String × String)) × (objects.annotations restored ≡ ok (some after))
        × ((key : String)
            → lookup key after ≡ (
                if last_applied_config_annotation == key
                then some (value_of (lookup last_applied_config_annotation (or_empty before)))
                else lookup key (or_empty before)))
  unfolding get_modified_configuration
  get_modified_configuration-annotations accessor o restored modified before annotate e h =
      let (found, a, k) = >>=-eq-ok (objects.annotations o) _ h in
      let same : found ≡ before = ok_injective _ _ (sym a ∙ e) in
      let annots = or_empty found in
      let original = value_of (lookup last_applied_config_annotation annots) in
      let without = delete last_applied_config_annotation annots in
      let (bare, b, k) = >>=-eq-ok (objects.set_annotations without o) _ k in
      let (text, c, k) = >>=-eq-ok (objects.encode bare) _ k in
      let (r, d, k) = >>=-eq-ok (annotated objects annotate without text bare) _ k in
      let after = insert last_applied_config_annotation original r.1 in
      let (last, g, k) = >>=-eq-ok (objects.set_annotations after r.2) _ k in
      let restores : last ≡ restored = ap (λ x. x.1) (ok_injective _ _ k) in
      (
        after,
        ap objects.annotations (sym restores) ∙ accessor after r.2 last g,
        λ key.
            restored_lookup original key annots r.1
              (λ f. annotated-keeps annotate without text bare r key d f)
            ∙ ap
                (λ x.
                  if last_applied_config_annotation == key
                  then some (value_of (lookup last_applied_config_annotation (or_empty x)))
                  else lookup key (or_empty x))
                same,
      )
