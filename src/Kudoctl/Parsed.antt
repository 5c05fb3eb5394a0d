-- ===== src/Kudoctl/Parsed.antt =====
-- What a parameter on the command line is read as, and which of two values wins.
use Prim.Native.Char.{code}
use Prim.Native.String.{◌++◌}
use text.Mathlib.TextLemmas.{nil-append, cons-append}
use text.Mathlib.TextEquality.{Char-path}
use kudo.Prelude.{
  ok_injective, ◌≡◌, refl, sym, ap, ◌∙◌, ◌≢◌, ◌↔◌, String, Bool, false, ◌||◌, List, [], ◌∷◌, Option,
  none, some, Result, ok, err, ◌==◌, eqb, arith, eq_iff, Bool-cases, inl, inr, subst, ==_ne,
}
use kudo.Prelude.Maps.{lookup, insert, lookup-insert, has_key, has_key-lookup, has_key-insert}
use kudo.Kudoctl.Params.{
  push_char, split_n, parameter_of, parse_parameter, copy_params, merge_params, ParamFiles,
  YamlValue, Gathered, none_gathered, add_parameter, add_raw, wrapped_value, wrap_param_value,
  value_type, add_values, read_values, get_parameters_from_file, add_file, add_files, no_errors,
  get_params_from_cmdline, get_params_from_files, get_parameter_map,
}

abbrev pub has_equals : String → Bool
has_equals String.[] = false
has_equals (String.◌∷◌ c rest) = eqb (code c) b'=' || has_equals rest

abbrev pub definition : String → String → String
definition key param = key ++ ("=" ++ param)

definition_nil : (param : String) → definition "" param ≡ String.◌∷◌ "=" param
definition_nil param =
    nil-append ("=" ++ param) ∙ cons-append "=" "" param ∙ ap (String.◌∷◌ "=") (nil-append param)

split_n-definition :
    (key param : String)
    → has_equals key ≡ false
    → split_n (definition key param) ≡ some (key, param)
unfolding split_n
split_n-definition String.[] param h = rw (definition_nil param) refl
split_n-definition (String.◌∷◌ c rest) param h =
    rw (cons-append c rest ("=" ++ param)) (ground (arith, h, split_n-definition rest param))

-- A text that splits is the definition of what it splits into.
abbrev Defines : String → String × String → Type 0
Defines raw (key, param) = (raw ≡ definition key param) × (has_equals key ≡ false)

some_injective : {A : Type 0} (a b : A) → some a ≡ some b → a ≡ b
some_injective a b h = cc

split_n-Defines :
    (raw : String) (pair : String × String) → split_n raw ≡ some pair → Defines raw pair
unfolding split_n
split_n-Defines String.[] pair h = cc
split_n-Defines (String.◌∷◌ c rest) pair h = elim (Bool-cases (eqb (code c) b'=')) [
  | inl e ↦
      let same : ("", rest) ≡ pair = some_injective _ _ (rw e at h) in
      subst (Defines (String.◌∷◌ c rest)) same (
        ap (λ d. String.◌∷◌ d rest) (Char-path c "=" (ground (arith, e)))
            ∙ sym (definition_nil rest),
        refl,
      )
  | inr e ↦ by_rest (split_n rest) refl e (λ p k. split_n-Defines rest p k) (rw e at h)
]
  where
    by_rest :
        (o : Option (String × String))
        → split_n rest ≡ o
        → eqb (code c) b'=' ≡ false
        → ((p : String × String) → split_n rest ≡ some p → Defines rest p)
        → push_char c o ≡ some pair
        → Defines (String.◌∷◌ c rest) pair
    by_rest none f e later k = absurd (cc)
    by_rest (some (key, param)) f e later k =
        let (g, free) = later (key, param) f in
        subst (Defines (String.◌∷◌ c rest)) (some_injective _ _ k)
          (ap (String.◌∷◌ c) g ∙ sym (cons-append c key ("=" ++ param)), ground (arith, e, free))

ne_of_test : (s t : String) → (s == t) ≡ false → s ≢ t
ne_of_test s t f e = cc (f, (eq_iff s t).1 e)

-- A parameter on the command line is read as a name and a value exactly if it is the name, an equals
-- sign and the value, neither of them is empty, and the name has no equals sign.
pub parse_parameter_iff :
    (raw key param : String)
    → (parse_parameter raw ≡ ok (key, param))
      ↔ ((raw ≡ definition key param) × (has_equals key ≡ false) × (key ≢ "") × (param ≢ ""))
unfolding parse_parameter
parse_parameter_iff raw key param = (reads (split_n raw) refl, defined)
  where
    reads :
        (o : Option (String × String))
        → split_n raw ≡ o
        → parameter_of raw o ≡ ok (key, param)
        → (raw ≡ definition key param) × (has_equals key ≡ false) × (key ≢ "") × (param ≢ "")
    reads none e h = absurd (cc)
    reads (some (k, p)) e h = elim (Bool-cases (k == "")) [
      | inl f ↦ absurd (cc (rw f at h))
      | inr f ↦ elim (Bool-cases (p == "")) [
        | inl g ↦ absurd (cc (rw (f, g) at h))
        | inr g ↦
            let same : (k, p) ≡ (key, param) = ok_injective _ _ (rw (f, g) at h) in
            subst
              (λ (x : String × String).
                (raw ≡ definition x.0 x.1) × (has_equals x.0 ≡ false) × (x.0 ≢ "") × (x.1 ≢ ""))
              same
              (
                (split_n-Defines raw (k, p) e).0,
                (split_n-Defines raw (k, p) e).1,
                ne_of_test k "" f,
                ne_of_test p "" g,
              )
      ]
    ]

    defined :
        (raw ≡ definition key param) × (has_equals key ≡ false) × (key ≢ "") × (param ≢ "")
        → parse_parameter raw ≡ ok (key, param)
    defined (e, free, k, p) =
        rw (e, split_n-definition key param free, ==_ne key "" k, ==_ne param "" p) refl

-- The value that a map of a second kind overrides.
abbrev pub or_else : Option String → Option String → Option String
or_else none later = later
or_else (some v) later = some v

abbrev pub DistinctKeys : List (String × String) → Type 0
DistinctKeys [] = Unit
DistinctKeys ((k, v) ∷ rest) = (has_key k rest ≡ false) × DistinctKeys rest

insert-DistinctKeys :
    (key v : String) (m : List (String × String)) → DistinctKeys m → DistinctKeys (insert key v m)
unfolding insert has_key
insert-DistinctKeys key v [] h = (refl, tt)
insert-DistinctKeys key v ((k, w) ∷ rest) (fresh, h) = elim (Bool-cases (k == key)) [
  | inl e ↦ rw e (ap (λ x. has_key x rest) (sym ((eq_iff k key).0 e)) ∙ fresh, h)
  | inr e ↦ rw e (
    has_key-insert key k v rest ∙ ground (arith, e, fresh, eq_iff k key, eq_iff key k),
    insert-DistinctKeys key v rest h,
  )
]

lookup-copy_params :
    (key : String) (from params : List (String × String))
    → DistinctKeys from
    → lookup key (copy_params from params) ≡ or_else (lookup key from) (lookup key params)
unfolding copy_params lookup
lookup-copy_params key [] params h = refl
lookup-copy_params key ((k, v) ∷ rest) params (fresh, h) = elim (Bool-cases (k == key)) [
  | inl e ↦ ground (
    arith,
    e,
    lookup-copy_params key rest (insert k v params) h,
    lookup-insert k key v params,
    has_key-lookup key rest (ap (λ x. has_key x rest) (sym ((eq_iff k key).0 e)) ∙ fresh),
  )
  | inr e ↦
      ground
        (arith, e, lookup-copy_params key rest (insert k v params) h, lookup-insert k key v params)
]

add_raw-DistinctKeys :
    (raw : List String) (g : Gathered)
    → DistinctKeys g.parameters
    → DistinctKeys (add_raw raw g).parameters
add_raw-DistinctKeys [] g h = h
add_raw-DistinctKeys (a ∷ rest) g h =
    add_raw-DistinctKeys rest (add_parameter (parse_parameter a) g) (one (parse_parameter a))
  where
    one : (r : Result String (String × String)) → DistinctKeys (add_parameter r g).parameters
    one (ok (k, v)) = insert-DistinctKeys k v g.parameters h
    one (err e) = h

module _ {J : Type 0} (files : ParamFiles J) where
  add_values-DistinctKeys :
      (values : List (String × YamlValue J)) (g : Gathered)
      → DistinctKeys g.parameters
      → DistinctKeys (add_values files values g).parameters
  unfolding add_values
  add_values-DistinctKeys [] g h = h
  add_values-DistinctKeys ((key, value) ∷ rest) g h =
      add_values-DistinctKeys rest _
        (one (wrapped_value files key (wrap_param_value files value (value_type files value))))
    where
      one : (r : Result String (String × String)) → DistinctKeys (add_parameter r g).parameters
      one (ok (k, v)) = insert-DistinctKeys k v g.parameters h
      one (err e) = h

  file-DistinctKeys :
      (path bytes : String) (params : List (String × String))
      → DistinctKeys params
      → DistinctKeys (get_parameters_from_file files path bytes params).0
  unfolding get_parameters_from_file
  file-DistinctKeys path bytes params h = by_values (files.unmarshal bytes)
    where
      by_values :
          (r : Result String (List (String × YamlValue J)))
          → DistinctKeys (read_values files path params r).0
      by_values (ok values) = add_values-DistinctKeys values _ h
      by_values (err x) = h

  add_files-DistinctKeys :
      (paths : List String) (g : Gathered)
      → DistinctKeys g.parameters
      → DistinctKeys (add_files files paths g).parameters
  unfolding add_files
  add_files-DistinctKeys [] g h = h
  add_files-DistinctKeys (p ∷ rest) g h = add_files-DistinctKeys rest _ (one (files.read_file p))
    where
      one : (r : Result String String) → DistinctKeys (add_file files p r g).parameters
      one (ok raw) = file-DistinctKeys p raw g.parameters h
      one (err e) = h

  -- If `GetParameterMap` returns no error, then the value of a name is the one from the command line,
  -- and the one from the files only if the command line has none.
  pub get_parameter_map-overrides :
      (raw file_paths : List String) (params : List (String × String)) (key : String)
      → get_parameter_map files raw file_paths ≡ ok params
      → lookup key params
        ≡ or_else
            (lookup key (get_params_from_cmdline raw).parameters)
            (lookup key (get_params_from_files files file_paths).parameters)
  unfolding get_parameter_map get_params_from_cmdline merge_params lookup
  get_parameter_map-overrides raw file_paths params key h =
      let cmdline = get_params_from_cmdline raw in
      let from_files = get_params_from_files files file_paths in
      ap (lookup key) (sym (no_error _ h))
      ∙ lookup-copy_params key cmdline.parameters (copy_params from_files.parameters [])
          (add_raw-DistinctKeys raw none_gathered tt)
      ∙ ap (or_else (lookup key cmdline.parameters)) (
          lookup-copy_params key from_files.parameters []
            (add_files-DistinctKeys file_paths none_gathered tt)
          ∙ or_else-none (lookup key from_files.parameters))
    where
      no_error :
          (es : List String) {ps : List (String × String)}
          → no_errors files es ps ≡ ok params
          → ps ≡ params
      no_error [] e = ok_injective _ _ e
      no_error (e ∷ es) k = absurd (cc)

      or_else-none : (o : Option String) → or_else o none ≡ o
      or_else-none none = refl
      or_else-none (some v) = refl
