-- ===== src/Kudoctl/Converted.antt =====
-- What pkg/kudoctl/packages/convert makes of a package's files.
use kudo.Prelude.{
  ◌≡◌, ◌≢◌, eq_iff, is_empty, ◌==◌, if◌then◌else◌, refl, String, true, List, [], ◌∷◌, ◌++◌, Option,
  none, some, ok, ok_injective, >>=-eq-ok, subst, Bool-cases, inl, inr, All,
}
use kudo.Prelude.Maps.{has_key}
use kudo.Api.Operator.{Task, PipeSpec}
use kudo.Verifier.Files.{OperatorFile, ParamsFile}
use kudo.Kudoctl.Params.{YamlValue, ParamFiles}
use kudo.Kudoctl.Convert.{
  PackageResources, TaskProblem, no_parameter, no_pipe_files, task_needs, missing_templates,
  validate_task, validate_tasks, parameters_to_crd_type, converted, files_to_resources,
}

-- There is a template of the name.
abbrev pub HasTemplate : List (String × String) → String → Type 0
HasTemplate templates r = has_key r templates ≡ true

-- What a task needs, by its kind: its templates, and the fields that its kind can not do without.
pub data IsComplete (templates : List (String × String)) (t : Task) : Type 0 where
  apply_task :
      t.kind ≡ "Apply" → All (HasTemplate templates) t.spec.resources → IsComplete templates t
  delete_task :
      t.kind ≡ "Delete" → All (HasTemplate templates) t.spec.resources → IsComplete templates t
  toggle_task :
      t.kind ≡ "Toggle"
      → All (HasTemplate templates) t.spec.resources
      → t.spec.parameter ≢ ""
      → IsComplete templates t
  pipe_task :
      t.kind ≡ "Pipe" → HasTemplate templates t.spec.pod → t.spec.pipe ≢ [] → IsComplete templates t
  -- The file of the child's parameters is one of the templates, if there is a file.
  kudo_operator_task :
      t.kind ≡ "KudoOperator"
      → (t.spec.parameter_file ≢ "" → HasTemplate templates t.spec.parameter_file)
      → IsComplete templates t
  dummy_task : t.kind ≡ "Dummy" → IsComplete templates t

is_kind : (k kind : String) → (k == kind) ≡ true → k ≡ kind
is_kind k kind e = (eq_iff k kind).0 e

-- A task whose templates are there and which has no other problem is complete.
needs-IsComplete :
    (templates : List (String × String)) (t : Task)
    → All (HasTemplate templates) (task_needs t).0
    → (task_needs t).1 ≡ []
    → IsComplete templates t
unfolding task_needs
needs-IsComplete templates t all fine = elim (Bool-cases (t.kind == "Apply")) [
  | inl e ↦ apply_task (is_kind _ _ e) (rw e at all)
  | inr a ↦ elim (Bool-cases (t.kind == "Delete")) [
    | inl e ↦ delete_task (is_kind _ _ e) (rw (a, e) at all)
    | inr d ↦ elim (Bool-cases (t.kind == "Toggle")) [
      | inl e ↦ toggle_task (is_kind _ _ e) (rw (a, d, e) at all) (named (rw (a, d, e) at fine))
      | inr g ↦ elim (Bool-cases (t.kind == "Pipe")) [
        | inl e ↦
            pipe_task (is_kind _ _ e) (rw (a, d, g, e) at all).0 (piped _ (rw (a, d, g, e) at fine))
        | inr p ↦ elim (Bool-cases (t.kind == "KudoOperator")) [
          | inl e ↦
              kudo_operator_task (is_kind _ _ e)
                (with_file t.spec.parameter_file (rw (a, d, g, p, e) at all))
          | inr k ↦ elim (Bool-cases (t.kind == "Dummy")) [
            | inl e ↦ dummy_task (is_kind _ _ e)
            | inr u ↦ absurd (cc (rw (a, d, g, p, k, u) at fine))
          ]
        ]
      ]
    ]
  ]
]
  where
    named :
        (if t.spec.parameter == "" then no_parameter t.name ∷ [] else []) ≡ []
        → t.spec.parameter ≢ ""
    named h e = absurd (cc (rw ((eq_iff t.spec.parameter "").1 e) at h))

    piped :
        (xs : List PipeSpec)
        → (if is_empty xs then no_pipe_files t.name ∷ [] else []) ≡ []
        → xs ≢ []
    piped [] h e = cc h
    piped (x ∷ xs) h e = cc e

    with_file :
        (file : String)
        → All (HasTemplate templates) (if file == "" then [] else file ∷ [])
        → file ≢ ""
        → HasTemplate templates file
    with_file file h n = elim (Bool-cases (file == "")) [
      | inl e ↦ absurd (n ((eq_iff file "").0 e))
      | inr e ↦ (rw e at h).0
    ]

pub record IsConsistent (r : PackageResources) : Type 0 where
  pub refers : r.instance.instance.spec.operator_version.name ≡ r.operator_version.name
  pub of_operator : r.operator_version.operator.name ≡ r.operator.name
  pub complete : All (IsComplete r.operator_version.templates) r.operator_version.tasks

append-empty : {A : Type 0} (xs ys : List A) → (xs ++ ys) ≡ [] → (xs ≡ []) × (ys ≡ [])
append-empty [] ys h = (refl, h)
append-empty (x ∷ xs) ys h = absurd (cc)

missing_templates-none :
    (task : String) (templates : List (String × String)) (rs : List String)
    → missing_templates task templates rs ≡ []
    → All (λ r. has_key r templates ≡ true) rs
unfolding missing_templates
missing_templates-none task templates [] h = tt
missing_templates-none task templates (r ∷ rs) h = elim (Bool-cases (has_key r templates)) [
  | inl e ↦ (e, missing_templates-none task templates rs (rw e at h))
  | inr e ↦ absurd (cc (rw e at h))
]

validate_tasks-none :
    (ts : List Task) (templates : List (String × String))
    → validate_tasks ts templates ≡ []
    → All (IsComplete templates) ts
unfolding validate_tasks validate_task
validate_tasks-none [] templates h = tt
validate_tasks-none (t ∷ ts) templates h =
    let (here, later) = append-empty (validate_task t templates) (validate_tasks ts templates) h in
    let (problems, missing) =
      append-empty (task_needs t).1 (missing_templates t.name templates (task_needs t).0) here in
    (
      needs-IsComplete templates t
          (missing_templates-none t.name templates (task_needs t).0 missing) problems,
      validate_tasks-none ts templates later,
    )

module _ {J : Type 0} (files : ParamFiles J) where
  -- If `FilesToResources` succeeds, then the instance refers to the operator version by its name, the operator
  -- version to the operator, and every task is of one of the six kinds and has the templates that it names; a
  -- Toggle task has its parameter, a Pipe task its pod's template and some pipe.
  pub files_to_resources-IsConsistent :
      (templates : List (String × String)) (o : Option OperatorFile)
      (params : Option (ParamsFile (YamlValue J))) (r : PackageResources)
      → files_to_resources files templates o params ≡ ok r
      → IsConsistent r
  unfolding files_to_resources
  files_to_resources-IsConsistent templates none params r h = cc
  files_to_resources-IsConsistent templates (some o) none r h = cc
  files_to_resources-IsConsistent templates (some o) (some params) r h =
      by_tasks (validate_tasks o.tasks templates) refl h
    where
      by_tasks :
          (problems : List TaskProblem)
          → validate_tasks o.tasks templates ≡ problems
          → converted files templates o params problems ≡ ok r
          → IsConsistent r
      by_tasks (p ∷ ps) e k = cc
      by_tasks [] e k =
          let (parameters, f, g) = >>=-eq-ok (parameters_to_crd_type files params.parameters) _ k in
          subst IsConsistent (ok_injective _ _ g) (record {
            refers = refl;
            of_operator = refl;
            complete = validate_tasks-none o.tasks templates e;
          })
